-- ===== src/Matrix/Tests.antt =====
-- The theorems of the matrices at concrete matrices, with the naturals as a toy arithmetic.
use nuhal.Common.{◌+◌, ◌-◌, ◌*◌, true, false, none, some, ok, ◌>>=◌, ◌≡◌, ltb, leb}
use nuhal.Floats.{FloatOps}
use nuhal.Matrix.{Matrix3x3, Matrix3x1, Matrix4x1, Matrix6x1, Matrix4x3, Matrix6x6}
use nuhal.Matrix.Product.{matrix_3x3_multiply_matrix}
use nuhal.Matrix.Product.Rows.{columns, rows_3x3, each, times, matrix_3x3_multiply_matrix-columns}

-- Natural numbers in place of floats.
abbrev toy : FloatOps
toy = record {
  add = λ a b. a + b;
  sub = λ a b. a - b;
  mul = λ a b. a * b;
  div = λ a b. a;
  fmod = λ a b. a;
  less = ltb;
  less_equal = leb;
  of_int = λ z. 0;
  to_int = λ a. none;
}

abbrev m3 : Matrix3x3
m3 = record {
  entries = record {
    at0 = record { at0 = 1; at1 = 2; at2 = 3 };
    at1 = record { at0 = 4; at1 = 5; at2 = 6 };
    at2 = record { at0 = 7; at1 = 8; at2 = 9 };
  };
  transpose = false;
}

abbrev m3_flagged : Matrix3x3
m3_flagged = record m3 { transpose = true }

abbrev n3 : Matrix3x3
n3 = record {
  entries = record {
    at0 = record { at0 = 4; at1 = 5; at2 = 6 };
    at1 = record { at0 = 7; at1 = 8; at2 = 9 };
    at2 = record { at0 = 10; at1 = 11; at2 = 12 };
  };
  transpose = false;
}

abbrev m4 : Matrix4x3
m4 = record {
  entries = record {
    at0 = record { at0 = 1; at1 = 2; at2 = 3 };
    at1 = record { at0 = 4; at1 = 5; at2 = 6 };
    at2 = record { at0 = 7; at1 = 8; at2 = 9 };
    at3 = record { at0 = 10; at1 = 11; at2 = 12 };
  };
  transpose = true;
}

abbrev m6 : Matrix6x6
m6 = record {
  entries = record {
    at0 = record { at0 = 1; at1 = 2; at2 = 3; at3 = 4; at4 = 5; at5 = 6 };
    at1 = record { at0 = 7; at1 = 8; at2 = 9; at3 = 10; at4 = 11; at5 = 12 };
    at2 = record { at0 = 13; at1 = 14; at2 = 15; at3 = 16; at4 = 17; at5 = 18 };
    at3 = record { at0 = 19; at1 = 20; at2 = 21; at3 = 22; at4 = 23; at5 = 24 };
    at4 = record { at0 = 25; at1 = 26; at2 = 27; at3 = 28; at4 = 29; at5 = 30 };
    at5 = record { at0 = 31; at1 = 32; at2 = 33; at3 = 34; at4 = 35; at5 = 36 };
  };
  transpose = true;
}

abbrev v3 : Matrix3x1
v3 = record { at0 = 1; at1 = 0; at2 = 2 }

abbrev v4 : Matrix4x1
v4 = record { at0 = 1; at1 = 0; at2 = 2; at3 = 1 }

abbrev v6 : Matrix6x1
v6 = record { at0 = 1; at1 = 0; at2 = 2; at3 = 1; at4 = 0; at5 = 3 }

matrix_3x3_multiply_matrix-columns_example :
    (matrix_3x3_multiply_matrix toy (some m3) (some n3) (some m3_flagged) >>= λ w.
    ok (columns (rows_3x3 w.entries)))
    ≡ ok (each (times toy (rows_3x3 m3.entries)) (columns (rows_3x3 n3.entries)))
matrix_3x3_multiply_matrix-columns_example = matrix_3x3_multiply_matrix-columns toy m3 n3 m3_flagged
