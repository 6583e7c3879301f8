-- ===== src/Matrix/Product.antt =====
-- nuhal_all/src/matrix.c: the products.
pub mod Rows
use nuhal.Common.{if◌then◌else◌, Outcome, ok, err, ◌>>=◌, Ptr, require, null_ptr, invalid_shape}
use nuhal.Floats.{FloatOps}
use nuhal.Matrix.{Matrix3x3, Matrix3x1, Matrix4x1, Matrix6x1, Matrix4x3, Matrix6x6}

module _ (F : FloatOps) where
  open F use {add, mul}

  unfoldable pub matrix_3x3_multiply_vector :
      Ptr Matrix3x3 → Ptr Matrix3x1 → Ptr Matrix3x1 → Outcome Matrix3x1
  matrix_3x3_multiply_vector A x v = do
    m ← require A null_ptr
    y ← require x null_ptr
    _ ← require v null_ptr
    let d = m.entries
    if m.transpose
        then ok (record {
          at0 = add (add (mul d.at0.at0 y.at0) (mul d.at1.at0 y.at1)) (mul d.at2.at0 y.at2);
          at1 = add (add (mul d.at0.at1 y.at0) (mul d.at1.at1 y.at1)) (mul d.at2.at1 y.at2);
          at2 = add (add (mul d.at0.at2 y.at0) (mul d.at1.at2 y.at1)) (mul d.at2.at2 y.at2);
        })
        else ok (record {
          at0 = add (add (mul d.at0.at0 y.at0) (mul d.at0.at1 y.at1)) (mul d.at0.at2 y.at2);
          at1 = add (add (mul d.at1.at0 y.at0) (mul d.at1.at1 y.at1)) (mul d.at1.at2 y.at2);
          at2 = add (add (mul d.at2.at0 y.at0) (mul d.at2.at1 y.at1)) (mul d.at2.at2 y.at2);
        })

  unfoldable pub matrix_4x3_3x1_multiply_vector :
      Ptr Matrix4x3 → Ptr Matrix3x1 → Ptr Matrix4x1 → Outcome Matrix4x1
  matrix_4x3_3x1_multiply_vector A x v = do
    m ← require A null_ptr
    y ← require x null_ptr
    _ ← require v null_ptr
    let d = m.entries
    if m.transpose
        then err invalid_shape
        else ok (record {
          at0 = add (add (mul d.at0.at0 y.at0) (mul d.at0.at1 y.at1)) (mul d.at0.at2 y.at2);
          at1 = add (add (mul d.at1.at0 y.at0) (mul d.at1.at1 y.at1)) (mul d.at1.at2 y.at2);
          at2 = add (add (mul d.at2.at0 y.at0) (mul d.at2.at1 y.at1)) (mul d.at2.at2 y.at2);
          at3 = add (add (mul d.at3.at0 y.at0) (mul d.at3.at1 y.at1)) (mul d.at3.at2 y.at2);
        })

  unfoldable pub matrix_4x3T_4x1_multiply_vector :
      Ptr Matrix4x3 → Ptr Matrix4x1 → Ptr Matrix3x1 → Outcome Matrix3x1
  matrix_4x3T_4x1_multiply_vector A x v = do
    m ← require A null_ptr
    y ← require x null_ptr
    _ ← require v null_ptr
    let d = m.entries
    if m.transpose
        then ok (record {
          at0 =
              add (add (add (mul d.at0.at0 y.at0) (mul d.at1.at0 y.at1)) (mul d.at2.at0 y.at2))
                (mul d.at3.at0 y.at3);
          at1 =
              add (add (add (mul d.at0.at1 y.at0) (mul d.at1.at1 y.at1)) (mul d.at2.at1 y.at2))
                (mul d.at3.at1 y.at3);
          at2 =
              add (add (add (mul d.at0.at2 y.at0) (mul d.at1.at2 y.at1)) (mul d.at2.at2 y.at2))
                (mul d.at3.at2 y.at3);
        })
        else err invalid_shape

  -- The flag is not read.
  unfoldable pub matrix_6x6_multiply_vector :
      Ptr Matrix6x6 → Ptr Matrix6x1 → Ptr Matrix6x1 → Outcome Matrix6x1
  matrix_6x6_multiply_vector A x v = do
    m ← require A null_ptr
    y ← require x null_ptr
    _ ← require v null_ptr
    let d = m.entries
    ok (record {
      at0 =
          add
            (add
              (add (add (add (mul d.at0.at0 y.at0) (mul d.at0.at1 y.at1)) (mul d.at0.at2 y.at2))
                (mul d.at0.at3 y.at3))
              (mul d.at0.at4 y.at4))
            (mul d.at0.at5 y.at5);
      at1 =
          add
            (add
              (add (add (add (mul d.at1.at0 y.at0) (mul d.at1.at1 y.at1)) (mul d.at1.at2 y.at2))
                (mul d.at1.at3 y.at3))
              (mul d.at1.at4 y.at4))
            (mul d.at1.at5 y.at5);
      at2 =
          add
            (add
              (add (add (add (mul d.at2.at0 y.at0) (mul d.at2.at1 y.at1)) (mul d.at2.at2 y.at2))
                (mul d.at2.at3 y.at3))
              (mul d.at2.at4 y.at4))
            (mul d.at2.at5 y.at5);
      at3 =
          add
            (add
              (add (add (add (mul d.at3.at0 y.at0) (mul d.at3.at1 y.at1)) (mul d.at3.at2 y.at2))
                (mul d.at3.at3 y.at3))
              (mul d.at3.at4 y.at4))
            (mul d.at3.at5 y.at5);
      at4 =
          add
            (add
              (add (add (add (mul d.at4.at0 y.at0) (mul d.at4.at1 y.at1)) (mul d.at4.at2 y.at2))
                (mul d.at4.at3 y.at3))
              (mul d.at4.at4 y.at4))
            (mul d.at4.at5 y.at5);
      at5 =
          add
            (add
              (add (add (add (mul d.at5.at0 y.at0) (mul d.at5.at1 y.at1)) (mul d.at5.at2 y.at2))
                (mul d.at5.at3 y.at3))
              (mul d.at5.at4 y.at4))
            (mul d.at5.at5 y.at5);
    })

  -- Neither flag is read, and that of `v` stays as it is.
  unfoldable pub matrix_3x3_multiply_matrix :
      Ptr Matrix3x3 → Ptr Matrix3x3 → Ptr Matrix3x3 → Outcome Matrix3x3
  matrix_3x3_multiply_matrix A x v = do
    m ← require A null_ptr
    y ← require x null_ptr
    o ← require v null_ptr
    let d = m.entries
    let e = y.entries
    ok (record o {
      entries = record {
        at0 = record {
          at0 =
              add (add (mul d.at0.at0 e.at0.at0) (mul d.at0.at1 e.at1.at0))
                (mul d.at0.at2 e.at2.at0);
          at1 =
              add (add (mul d.at0.at0 e.at0.at1) (mul d.at0.at1 e.at1.at1))
                (mul d.at0.at2 e.at2.at1);
          at2 =
              add (add (mul d.at0.at0 e.at0.at2) (mul d.at0.at1 e.at1.at2))
                (mul d.at0.at2 e.at2.at2);
        };
        at1 = record {
          at0 =
              add (add (mul d.at1.at0 e.at0.at0) (mul d.at1.at1 e.at1.at0))
                (mul d.at1.at2 e.at2.at0);
          at1 =
              add (add (mul d.at1.at0 e.at0.at1) (mul d.at1.at1 e.at1.at1))
                (mul d.at1.at2 e.at2.at1);
          at2 =
              add (add (mul d.at1.at0 e.at0.at2) (mul d.at1.at1 e.at1.at2))
                (mul d.at1.at2 e.at2.at2);
        };
        at2 = record {
          at0 =
              add (add (mul d.at2.at0 e.at0.at0) (mul d.at2.at1 e.at1.at0))
                (mul d.at2.at2 e.at2.at0);
          at1 =
              add (add (mul d.at2.at0 e.at0.at1) (mul d.at2.at1 e.at1.at1))
                (mul d.at2.at2 e.at2.at1);
          at2 =
              add (add (mul d.at2.at0 e.at0.at2) (mul d.at2.at1 e.at1.at2))
                (mul d.at2.at2 e.at2.at2);
        };
      };
    })
