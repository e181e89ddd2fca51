-- ===== src/Engine/Tables.antt =====
-- The tables are read inside their bounds.
use univac.Base.{
  ℕ, zero, suc, ◌≤◌, ◌-◌, ◌≡◌, refl, Bool, true, ◌&&◌, Option, some, List, [], ◌∷◌, get_elem?,
  length, ◌>>=◌, leb, all, arith,
}
use univac.Floats.{Floating, FloatLaws, clamp_bounds}
use univac.Engine.Bank.{
  bounding_index, depth_to_draft_axis, distance_to_beam_axis, cy_lookup_matrix, cn_lookup_matrix,
  cell, clamp_depth, clamp_distance, bilinear_interpolate, bank_coefficients,
}

-- A list answers below its length.
abbrev pub Returns {ℓ} : {A : Type ℓ} → Option A → Type ℓ
Returns {A} o = (a : A) × (o ≡ some a)

get_elem-Returns :
    {A : Type 0} (l : List A) (i : ℕ) → leb (suc i) (length l) ≡ true → Returns (get_elem? l i)
get_elem-Returns [] i h = ground arith
get_elem-Returns (x ∷ l) zero h = (x, refl)
get_elem-Returns (x ∷ l) (suc i) h = get_elem-Returns l i (ground arith)

bind-Returns :
    {A B : Type 0} {o : Option A} {f : A → Option B}
    → Returns o
    → ((a : A) → Returns (f a))
    → Returns (o >>= f)
bind-Returns (a, e) k = rw e (k a)

-- At least so many rows, each of at least so many cells.
abbrev pub is_table : {A : Type 0} → ℕ → ℕ → List (List A) → Bool
is_table rows columns matrix =
    leb rows (length matrix) && all (λ row. leb columns (length row)) matrix

wide_row :
    {A : Type 0} (n : ℕ) (matrix : List (List A)) (y : ℕ)
    → all (λ r. leb n (length r)) matrix ≡ true
    → leb (suc y) (length matrix) ≡ true
    → (row : List A) × (get_elem? matrix y ≡ some row) × (leb n (length row) ≡ true)
wide_row n [] y h k = ground arith
wide_row n (r ∷ m) zero h k = (r, refl, ground arith)
wide_row n (r ∷ m) (suc y) h k = wide_row n m y (ground arith) (ground arith)

cell-Returns :
    {F : Type 0} ⦃fl : Floating F⦄ (rows columns : ℕ) (matrix : List (List F)) (y x : ℕ)
    → is_table rows columns matrix ≡ true
    → suc y ≤ rows
    → suc x ≤ columns
    → Returns (cell matrix y x)
unfolding cell
cell-Returns rows columns matrix y x h hy hx =
    let (row, e, wide) = wide_row columns matrix y (ground arith) (ground arith) in
    rw e (get_elem-Returns row x (ground arith))

bounding_index_le :
    {F : Type 0} ⦃fl : Floating F⦄ (s : List F → F → ℕ) (axis : List F) (v : F)
    → bounding_index s axis v ≤ length axis - 2
unfolding bounding_index
bounding_index_le s axis v = ground arith

table_shapes :
    (F : Type 0) ⦃fl : Floating F⦄
    → (is_table {A = F} 7 6 cy_lookup_matrix ≡ true)
      × (is_table {A = F} 7 6 cn_lookup_matrix ≡ true)
unfolding cy_lookup_matrix cn_lookup_matrix
table_shapes F = (refl, refl)

module _ {F : Type 0} ⦃fl : Floating F⦄ where
  interpolate-Returns :
      (s : List F → F → ℕ) (depth_ratio distance_ratio : F) (matrix : List (List F))
      → is_table 7 6 matrix ≡ true
      → Returns (bilinear_interpolate s depth_ratio distance_ratio matrix)
  unfolding bilinear_interpolate depth_to_draft_axis distance_to_beam_axis
  interpolate-Returns s a b matrix h =
      let x_axis = depth_to_draft_axis in
      let y_axis = distance_to_beam_axis in
      let x = bounding_index s x_axis (clamp_depth a) in
      let y = bounding_index s y_axis (clamp_distance b) in
      let hx : x ≤ 4 = bounding_index_le s x_axis (clamp_depth a) in
      let hy : y ≤ 5 = bounding_index_le s y_axis (clamp_distance b) in
      bind-Returns (get_elem-Returns x_axis x (ground arith)) λ x0.
        bind-Returns (get_elem-Returns x_axis (suc x) (ground arith)) λ x1.
          bind-Returns (get_elem-Returns y_axis y (ground arith)) λ y0.
            bind-Returns (get_elem-Returns y_axis (suc y) (ground arith)) λ y1.
              bind-Returns (cell-Returns 7 6 matrix y x h (ground arith) (ground arith)) λ q00.
                bind-Returns (cell-Returns 7 6 matrix y (suc x) h (ground arith) (ground arith))
                  λ q10.
                    bind-Returns (cell-Returns 7 6 matrix (suc y) x h (ground arith) (ground arith))
                      λ q01.
                        bind-Returns
                          (cell-Returns 7 6 matrix (suc y) (suc x) h (ground arith) (ground arith))
                          λ q11. (_, refl)

  -- Whatever the ratios are, not a number included, and whatever the search of the axis answers,
  -- both coefficients are computed: no row or column outside the tables or the axes is read; and
  -- the ratios that are interpolated lie within the ends of the axes.
  pub bank_coefficients-Returns :
      (laws : FloatLaws fl) (s : List F → F → ℕ) (depth_ratio distance_ratio : F)
      → Returns (bank_coefficients s depth_ratio distance_ratio)
        × (fl.le (fl.lit 11 1) (clamp_depth depth_ratio) ≡ true)
        × (fl.le (clamp_depth depth_ratio) (fl.lit 40 1) ≡ true)
        × (fl.le (fl.lit 5 1) (clamp_distance distance_ratio) ≡ true)
        × (fl.le (clamp_distance distance_ratio) (fl.lit 50 1) ≡ true)
  unfolding bank_coefficients clamp_depth clamp_distance
  bank_coefficients-Returns laws s a b =
      let (y_shape, n_shape) = table_shapes F in
      let (d0, d1) =
        clamp_bounds laws (fl.lit 11 1) (fl.lit 40 1) a (laws.lit_mono 11 11 1 (omega arith))
          (laws.lit_mono 40 40 1 (omega arith)) (laws.lit_mono 11 40 1 (omega arith)) in
      let (e0, e1) =
        clamp_bounds laws (fl.lit 5 1) (fl.lit 50 1) b (laws.lit_mono 5 5 1 (omega arith))
          (laws.lit_mono 50 50 1 (omega arith)) (laws.lit_mono 5 50 1 (omega arith)) in
      (
        bind-Returns (interpolate-Returns s a b cy_lookup_matrix y_shape) λ c_y.
            bind-Returns (interpolate-Returns s a b cn_lookup_matrix n_shape) λ c_n. (_, refl),
        d0,
        d1,
        e0,
        e1,
      )
