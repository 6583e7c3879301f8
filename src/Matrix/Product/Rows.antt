-- ===== src/Matrix/Product/Rows.antt =====
-- Matrices as lists of rows, and the product of a matrix and a vector by sums over its rows.
use nuhal.Common.{
  false, some, List, [], ◌∷◌, if◌then◌else◌, ok, err, ◌>>=◌, ◌≡◌, refl, arith, invalid_shape,
}
use nuhal.Bytestream.{Float}
use nuhal.Floats.{FloatOps, zero_f}
use nuhal.Matrix.{
  Three, Four, Six, Matrix3x3, Matrix3x1, Matrix4x1, Matrix6x1, Matrix4x3, Matrix6x6,
  matrix_3x3_return_transpose, matrix_3x3_transpose,
}
use nuhal.Matrix.Init.{matrix_6x6_init}
use nuhal.Matrix.Product.{
  matrix_3x3_multiply_vector, matrix_4x3_3x1_multiply_vector, matrix_4x3T_4x1_multiply_vector,
  matrix_6x6_multiply_vector, matrix_3x3_multiply_matrix,
}

abbrev pub three {ℓ} : {A : Type ℓ} → Three A → List A
three t = t.at0 ∷ t.at1 ∷ t.at2 ∷ []

abbrev pub four {ℓ} : {A : Type ℓ} → Four A → List A
four t = t.at0 ∷ t.at1 ∷ t.at2 ∷ t.at3 ∷ []

abbrev pub six {ℓ} : {A : Type ℓ} → Six A → List A
six t = t.at0 ∷ t.at1 ∷ t.at2 ∷ t.at3 ∷ t.at4 ∷ t.at5 ∷ []

abbrev pub each {ℓ κ} : {A : Type ℓ} {B : Type κ} → (A → B) → List A → List B
each f [] = []
each f (x ∷ xs) = f x ∷ each f xs

abbrev pub rows_3x3 : Three (Three Float) → List (List Float)
rows_3x3 d = each three (three d)

abbrev pub rows_4x3 : Four (Three Float) → List (List Float)
rows_4x3 d = each three (four d)

abbrev pub rows_6x6 : Six (Six Float) → List (List Float)
rows_6x6 d = each six (six d)

-- Each element in front of a column.
abbrev pub in_front : List Float → List (List Float) → List (List Float)
in_front [] cols = []
in_front (x ∷ xs) [] = (x ∷ []) ∷ in_front xs []
in_front (x ∷ xs) (c ∷ cols) = (x ∷ c) ∷ in_front xs cols

-- The columns of a list of rows.
abbrev pub columns : List (List Float) → List (List Float)
columns [] = []
columns (r ∷ rows) = in_front r (columns rows)

module _ (F : FloatOps) where
  open F use {add, mul}

  abbrev pub sum_from : Float → List Float → List Float → Float
  sum_from acc [] ys = acc
  sum_from acc (x ∷ xs) [] = acc
  sum_from acc (x ∷ xs) (y ∷ ys) = sum_from (add acc (mul x y)) xs ys

  -- The products of the elements, added from the left.
  abbrev pub dot : List Float → List Float → Float
  dot [] ys = zero_f
  dot (x ∷ xs) [] = zero_f
  dot (x ∷ xs) (y ∷ ys) = sum_from (mul x y) xs ys

  abbrev pub times : List (List Float) → List Float → List Float
  times rows x = each (λ r. dot r x) rows

  -- The product of a 3x3 matrix and a vector is the list of the sums of products, added from the
  -- left, over the rows of the matrix, or over its columns if it is flagged as transposed.
  pub matrix_3x3_multiply_vector-times :
      (m : Matrix3x3) (x v : Matrix3x1)
      → (matrix_3x3_multiply_vector F (some m) (some x) (some v) >>= λ w. ok (three w))
        ≡ ok (
            times
              (if m.transpose then columns (rows_3x3 m.entries) else rows_3x3 m.entries)
              (three x))
  unfolding matrix_3x3_multiply_vector
  matrix_3x3_multiply_vector-times m x v = ground arith

  -- The product of an unflagged 4x3 matrix and a vector of 3 is the list of the sums over its
  -- rows; a flagged one is an invalid shape.
  pub matrix_4x3_3x1_multiply_vector-times :
      (m : Matrix4x3) (x : Matrix3x1) (v : Matrix4x1)
      → (matrix_4x3_3x1_multiply_vector F (some m) (some x) (some v) >>= λ w. ok (four w))
        ≡ (if m.transpose then err invalid_shape else ok (times (rows_4x3 m.entries) (three x)))
  unfolding matrix_4x3_3x1_multiply_vector
  matrix_4x3_3x1_multiply_vector-times m x v = ground arith

  -- The product of a flagged 4x3 matrix and a vector of 4 is the list of the sums over its
  -- columns; an unflagged one is an invalid shape.
  pub matrix_4x3T_4x1_multiply_vector-times :
      (m : Matrix4x3) (x : Matrix4x1) (v : Matrix3x1)
      → (matrix_4x3T_4x1_multiply_vector F (some m) (some x) (some v) >>= λ w. ok (three w)) ≡ (
          if m.transpose
          then ok (times (columns (rows_4x3 m.entries)) (four x))
          else err invalid_shape)
  unfolding matrix_4x3T_4x1_multiply_vector
  matrix_4x3T_4x1_multiply_vector-times m x v = ground arith

  -- The columns of the data of a product of two 3x3 matrices are the products of the rows of the
  -- first and the columns of the second, whatever the flags.
  pub matrix_3x3_multiply_matrix-columns :
      (a b v : Matrix3x3)
      → (matrix_3x3_multiply_matrix F (some a) (some b) (some v) >>= λ w.
          ok (columns (rows_3x3 w.entries)))
        ≡ ok (each (times (rows_3x3 a.entries)) (columns (rows_3x3 b.entries)))
  unfolding matrix_3x3_multiply_matrix
  matrix_3x3_multiply_matrix-columns a b v = refl

  -- For an unflagged matrix and an unflagged output, multiplying by the copy that
  -- matrix_3x3_return_transpose makes is multiplying by the matrix that matrix_3x3_transpose
  -- flags.
  pub matrix_3x3_return_transpose-flag :
      (m out : Matrix3x3) (x v : Matrix3x1)
      → m.transpose ≡ false
      → out.transpose ≡ false
      → (matrix_3x3_return_transpose (some m) (some out) >>= λ t.
          matrix_3x3_multiply_vector F (some t) (some x) (some v))
        ≡ (matrix_3x3_transpose (some m) >>= λ t.
            matrix_3x3_multiply_vector F (some t) (some x) (some v))
  unfolding matrix_3x3_return_transpose matrix_3x3_transpose matrix_3x3_multiply_vector
  matrix_3x3_return_transpose-flag m out x v e e' = ground arith

  -- A 6x6 matrix that was initialised from 36 numbers, and then multiplied by a vector, gives the
  -- sums over the rows of the numbers.
  pub matrix_6x6_init-multiply_vector :
      (a11 a12 a13 a14 a15 a16 a21 a22 a23 a24 a25 a26 a31 a32 a33 a34 a35 a36 a41 a42 a43 a44 a45
        a46 a51 a52 a53 a54 a55 a56 a61 a62 a63 a64 a65 a66 : Float)
      (out : Matrix6x6) (x v : Matrix6x1)
      → (matrix_6x6_init
            (some out)
            a11
            a12
            a13
            a14
            a15
            a16
            a21
            a22
            a23
            a24
            a25
            a26
            a31
            a32
            a33
            a34
            a35
            a36
            a41
            a42
            a43
            a44
            a45
            a46
            a51
            a52
            a53
            a54
            a55
            a56
            a61
            a62
            a63
            a64
            a65
            a66
          >>= λ m. matrix_6x6_multiply_vector F (some m) (some x) (some v) >>= λ w. ok (six w))
        ≡ ok (
            times
              ((a11 ∷ a12 ∷ a13 ∷ a14 ∷ a15 ∷ a16 ∷ [])
                ∷ (a21 ∷ a22 ∷ a23 ∷ a24 ∷ a25 ∷ a26 ∷ [])
                ∷ (a31 ∷ a32 ∷ a33 ∷ a34 ∷ a35 ∷ a36 ∷ [])
                ∷ (a41 ∷ a42 ∷ a43 ∷ a44 ∷ a45 ∷ a46 ∷ [])
                ∷ (a51 ∷ a52 ∷ a53 ∷ a54 ∷ a55 ∷ a56 ∷ [])
                ∷ (a61 ∷ a62 ∷ a63 ∷ a64 ∷ a65 ∷ a66 ∷ [])
                ∷ [])
              (six x))
  unfolding matrix_6x6_init matrix_6x6_multiply_vector
  matrix_6x6_init-multiply_vector a11 a12 a13 a14 a15 a16 a21 a22 a23 a24 a25 a26 a31 a32 a33 a34
        a35 a36 a41 a42 a43 a44 a45 a46 a51 a52 a53 a54 a55 a56 a61 a62 a63 a64 a65 a66 out x v =
      refl
