-- ===== src/Matrix.antt =====
-- nuhal_all/src/matrix.c: the matrices of fixed sizes, their transposes, and the cross product. An array
-- of fixed size is a record, since the source indexes it by constants only. An output object is
-- none of the inputs, and comes back as the result.
pub mod Init
pub mod Product
mod Tests
use nuhal.Common.{Bool, not, Outcome, ok, ◌>>=◌, Ptr, require, null_ptr}
use nuhal.Bytestream.{Float}
use nuhal.Floats.{FloatOps}

-- `T x[3]`
pub record Three {ℓ} (A : Type ℓ) : Type ℓ where
  pub at0 : A
  pub at1 : A
  pub at2 : A

-- `T x[4]`
pub record Four {ℓ} (A : Type ℓ) : Type ℓ where
  pub at0 : A
  pub at1 : A
  pub at2 : A
  pub at3 : A

-- `T x[6]`
pub record Six {ℓ} (A : Type ℓ) : Type ℓ where
  pub at0 : A
  pub at1 : A
  pub at2 : A
  pub at3 : A
  pub at4 : A
  pub at5 : A

-- `struct matrix_3x3`; `entries.at1.at0` is `data[1][0]`.
pub record Matrix3x3 : Type 0 where
  pub entries : Three (Three Float)
  pub transpose : Bool

-- `struct matrix_3x1`, `struct matrix_4x1` and `struct matrix_6x1` hold nothing but their data.
abbrev pub Matrix3x1 : Type 0
Matrix3x1 = Three Float

abbrev pub Matrix4x1 : Type 0
Matrix4x1 = Four Float

abbrev pub Matrix6x1 : Type 0
Matrix6x1 = Six Float

-- `struct matrix_4x3`
pub record Matrix4x3 : Type 0 where
  pub entries : Four (Three Float)
  pub transpose : Bool

-- `struct matrix_6x6`
pub record Matrix6x6 : Type 0 where
  pub entries : Six (Six Float)
  pub transpose : Bool

unfoldable pub matrix_3x3_transpose : Ptr Matrix3x3 → Outcome Matrix3x3
matrix_3x3_transpose mat = do
  m ← require mat null_ptr
  ok (record m { transpose = not m.transpose })

unfoldable pub matrix_4x3_transpose : Ptr Matrix4x3 → Outcome Matrix4x3
matrix_4x3_transpose mat = do
  m ← require mat null_ptr
  ok (record m { transpose = not m.transpose })

-- The flag of `mat_tr` stays as it is.
unfoldable pub matrix_3x3_return_transpose : Ptr Matrix3x3 → Ptr Matrix3x3 → Outcome Matrix3x3
matrix_3x3_return_transpose mat mat_tr = do
  m ← require mat null_ptr
  t ← require mat_tr null_ptr
  let d = m.entries
  ok (record t {
    entries = record {
      at0 = record { at0 = d.at0.at0; at1 = d.at1.at0; at2 = d.at2.at0 };
      at1 = record { at0 = d.at0.at1; at1 = d.at1.at1; at2 = d.at2.at1 };
      at2 = record { at0 = d.at0.at2; at1 = d.at1.at2; at2 = d.at2.at2 };
    };
  })

module _ (F : FloatOps) where
  open F use {sub, mul}

  unfoldable pub matrix_3x1_cross :
      Ptr Matrix3x1 → Ptr Matrix3x1 → Ptr Matrix3x1 → Outcome Matrix3x1
  matrix_3x1_cross w v out = do
    a ← require w null_ptr
    b ← require v null_ptr
    _ ← require out null_ptr
    ok (record {
      at0 = sub (mul a.at1 b.at2) (mul b.at1 a.at2);
      at1 = sub (mul b.at0 a.at2) (mul a.at0 b.at2);
      at2 = sub (mul a.at0 b.at1) (mul b.at0 a.at1);
    })
