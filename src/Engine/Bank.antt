-- ===== src/Engine/Bank.antt =====
-- hydrodynamics/bank_suction_lookup.py: the coefficient tables and their interpolation.
-- process_bank_forces is left by NameError behind the two coefficients, since the module uses `math`
-- without importing it. numpy.searchsorted is a
-- parameter. The ratios of the axes are literals in the source's digits.
use univac.Base.{
  ℕ, suc, ◌-◌, Option, some, List, [], ◌∷◌, map, get_elem?, length, ◌>>=◌, leb, if◌then◌else◌,
}
use univac.Floats.{Floating, clamp}

abbrev pub min_index : ℕ → ℕ → ℕ
min_index a b = if leb a b then a else b

module _ {F : Type 0} ⦃fl : Floating F⦄ where
  unfoldable pub depth_to_draft_axis : List F
  depth_to_draft_axis =
      fl.lit 11 1 ∷ fl.lit 13 1 ∷ fl.lit 15 1 ∷ fl.lit 20 1 ∷ fl.lit 30 1 ∷ fl.lit 40 1 ∷ []

  unfoldable pub distance_to_beam_axis : List F
  distance_to_beam_axis =
      fl.lit 5 1
      ∷ fl.lit 75 2
      ∷ fl.lit 10 1
      ∷ fl.lit 15 1
      ∷ fl.lit 20 1
      ∷ fl.lit 35 1
      ∷ fl.lit 50 1
      ∷ []

  -- A table in thousandths.
  abbrev pub thousandths : List (List ℕ) → List (List F)
  thousandths rows = map (map (λ n. fl.lit n 3)) rows

  unfoldable pub cy_lookup_matrix : List (List F)
  cy_lookup_matrix = thousandths (
      (180 ∷ 145 ∷ 110 ∷ 75 ∷ 40 ∷ 20 ∷ [])
      ∷ (125 ∷ 98 ∷ 75 ∷ 50 ∷ 25 ∷ 12 ∷ [])
      ∷ (85 ∷ 65 ∷ 50 ∷ 32 ∷ 15 ∷ 8 ∷ [])
      ∷ (40 ∷ 32 ∷ 24 ∷ 15 ∷ 7 ∷ 3 ∷ [])
      ∷ (18 ∷ 14 ∷ 10 ∷ 6 ∷ 2 ∷ 1 ∷ [])
      ∷ (4 ∷ 3 ∷ 2 ∷ 1 ∷ 0 ∷ 0 ∷ [])
      ∷ (0 ∷ 0 ∷ 0 ∷ 0 ∷ 0 ∷ 0 ∷ [])
      ∷ [])

  unfoldable pub cn_lookup_matrix : List (List F)
  cn_lookup_matrix = thousandths (
      (45 ∷ 38 ∷ 30 ∷ 20 ∷ 10 ∷ 5 ∷ [])
      ∷ (32 ∷ 26 ∷ 20 ∷ 14 ∷ 7 ∷ 3 ∷ [])
      ∷ (22 ∷ 18 ∷ 14 ∷ 9 ∷ 4 ∷ 2 ∷ [])
      ∷ (10 ∷ 8 ∷ 6 ∷ 4 ∷ 2 ∷ 1 ∷ [])
      ∷ (5 ∷ 4 ∷ 3 ∷ 2 ∷ 1 ∷ 0 ∷ [])
      ∷ (1 ∷ 1 ∷ 0 ∷ 0 ∷ 0 ∷ 0 ∷ [])
      ∷ (0 ∷ 0 ∷ 0 ∷ 0 ∷ 0 ∷ 0 ∷ [])
      ∷ [])

  -- max(0, min(np.searchsorted(axis, v) - 1, len(axis) - 2)), where -1 comes to 0
  unfoldable pub bounding_index : (List F → F → ℕ) → List F → F → ℕ
  bounding_index searchsorted axis v = min_index (searchsorted axis v - 1) (length axis - 2)

  -- max(axis[0], min(axis[-1], v)); the ends of the two axes
  unfoldable pub clamp_depth : F → F
  clamp_depth v = clamp (fl.lit 11 1) (fl.lit 40 1) v

  unfoldable pub clamp_distance : F → F
  clamp_distance v = clamp (fl.lit 5 1) (fl.lit 50 1) v

  -- matrix[y, x], none where numpy raises IndexError
  unfoldable pub cell : List (List F) → ℕ → ℕ → Option F
  cell matrix y x = get_elem? matrix y >>= λ row. get_elem? row x

  -- The four weighted corners of an interval.
  unfoldable pub weighted : (d_ratio dist_ratio x0 x1 y0 y1 q00 q10 q01 q11 : F) → F
  weighted d_ratio dist_ratio x0 x1 y0 y1 q00 q10 q01 q11 =
      let wa = fl.mul (fl.sub x1 d_ratio) (fl.sub y1 dist_ratio) in
      let wb = fl.mul (fl.sub d_ratio x0) (fl.sub y1 dist_ratio) in
      let wc = fl.mul (fl.sub x1 d_ratio) (fl.sub dist_ratio y0) in
      let wd = fl.mul (fl.sub d_ratio x0) (fl.sub dist_ratio y0) in
      let denom = fl.mul (fl.sub x1 x0) (fl.sub y1 y0) in
      fl.div
        (fl.add (fl.add (fl.add (fl.mul wa q00) (fl.mul wb q10)) (fl.mul wc q01)) (fl.mul wd q11))
        denom

  -- `_bilinear_interpolate`, none where an index is out of bounds.
  unfoldable pub bilinear_interpolate :
      (List F → F → ℕ) → (depth_ratio distance_ratio : F) → List (List F) → Option F
  bilinear_interpolate searchsorted depth_ratio distance_ratio matrix =
      let d_ratio = clamp_depth depth_ratio in
      let dist_ratio = clamp_distance distance_ratio in
      let x_idx = bounding_index searchsorted depth_to_draft_axis d_ratio in
      let y_idx = bounding_index searchsorted distance_to_beam_axis dist_ratio in
      get_elem? depth_to_draft_axis x_idx >>= λ x0.
      get_elem? depth_to_draft_axis (suc x_idx) >>= λ x1.
      get_elem? distance_to_beam_axis y_idx >>= λ y0.
      get_elem? distance_to_beam_axis (suc y_idx) >>= λ y1. cell matrix y_idx x_idx >>= λ q00.
      cell matrix y_idx (suc x_idx) >>= λ q10. cell matrix (suc y_idx) x_idx >>= λ q01.
      cell matrix (suc y_idx) (suc x_idx) >>= λ q11.
      some (weighted d_ratio dist_ratio x0 x1 y0 y1 q00 q10 q01 q11)

  -- c_y and c_n of `process_bank_forces`, at the two ratios.
  unfoldable pub bank_coefficients : (List F → F → ℕ) → F → F → Option (F × F)
  bank_coefficients searchsorted depth_ratio distance_ratio =
      bilinear_interpolate searchsorted depth_ratio distance_ratio cy_lookup_matrix >>= λ c_y.
      bilinear_interpolate searchsorted depth_ratio distance_ratio cn_lookup_matrix >>= λ c_n.
      some (c_y, c_n)
