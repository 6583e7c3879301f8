-- ===== src/Matrix/Init.antt =====
-- nuhal_all/src/matrix.c: the initialisation of the matrices, row by row.
use nuhal.Common.{false, Outcome, ok, ◌>>=◌, Ptr, require, null_ptr}
use nuhal.Bytestream.{Float}
use nuhal.Matrix.{Matrix3x3, Matrix4x3, Matrix6x6}

unfoldable pub matrix_3x3_init :
    Ptr Matrix3x3
    → Float
    → Float
    → Float
    → Float
    → Float
    → Float
    → Float
    → Float
    → Float
    → Outcome Matrix3x3
matrix_3x3_init out a11 a12 a13 a21 a22 a23 a31 a32 a33 = do
  _ ← require out null_ptr
  ok (record {
    entries = record {
      at0 = record { at0 = a11; at1 = a12; at2 = a13 };
      at1 = record { at0 = a21; at1 = a22; at2 = a23 };
      at2 = record { at0 = a31; at1 = a32; at2 = a33 };
    };
    transpose = false;
  })

unfoldable pub matrix_4x3_init :
    Ptr Matrix4x3
    → Float
    → Float
    → Float
    → Float
    → Float
    → Float
    → Float
    → Float
    → Float
    → Float
    → Float
    → Float
    → Outcome Matrix4x3
matrix_4x3_init out a11 a12 a13 a21 a22 a23 a31 a32 a33 a41 a42 a43 = do
  _ ← require out null_ptr
  ok (record {
    entries = record {
      at0 = record { at0 = a11; at1 = a12; at2 = a13 };
      at1 = record { at0 = a21; at1 = a22; at2 = a23 };
      at2 = record { at0 = a31; at1 = a32; at2 = a33 };
      at3 = record { at0 = a41; at1 = a42; at2 = a43 };
    };
    transpose = false;
  })

unfoldable pub matrix_6x6_init :
    Ptr Matrix6x6
    → Float
    → Float
    → Float
    → Float
    → Float
    → Float
    → Float
    → Float
    → Float
    → Float
    → Float
    → Float
    → Float
    → Float
    → Float
    → Float
    → Float
    → Float
    → Float
    → Float
    → Float
    → Float
    → Float
    → Float
    → Float
    → Float
    → Float
    → Float
    → Float
    → Float
    → Float
    → Float
    → Float
    → Float
    → Float
    → Float
    → Outcome Matrix6x6
matrix_6x6_init out a11 a12 a13 a14 a15 a16 a21 a22 a23 a24 a25 a26 a31 a32 a33 a34 a35 a36 a41 a42
      a43 a44 a45 a46 a51 a52 a53 a54 a55 a56 a61 a62 a63 a64 a65 a66 =
    do
      _ ← require out null_ptr
      ok (record {
        entries = record {
          at0 = record { at0 = a11; at1 = a12; at2 = a13; at3 = a14; at4 = a15; at5 = a16 };
          at1 = record { at0 = a21; at1 = a22; at2 = a23; at3 = a24; at4 = a25; at5 = a26 };
          at2 = record { at0 = a31; at1 = a32; at2 = a33; at3 = a34; at4 = a35; at5 = a36 };
          at3 = record { at0 = a41; at1 = a42; at2 = a43; at3 = a44; at4 = a45; at5 = a46 };
          at4 = record { at0 = a51; at1 = a52; at2 = a53; at3 = a54; at4 = a55; at5 = a56 };
          at5 = record { at0 = a61; at1 = a62; at2 = a63; at3 = a64; at4 = a65; at5 = a66 };
        };
        transpose = false;
      })
