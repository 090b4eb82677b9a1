-- ===== src/Journal/Compare/Index.antt =====
-- What the index of a run finds for a cell.
use hi_perf_cmp.Prelude.{
  ◌≡◌, refl, ap, ◌∙◌, arith, List, [], ◌∷◌, Option, none, some, true, if◌then◌else◌, Bool-cases,
  inl, inr,
}
use hi_perf_cmp.Prelude.Text.{same_text_sound, same_text_refl}
use hi_perf_cmp.Journal.Compare.{
  CellKey, same_key, Floats, ResultLine, cell_key, is_placeholder, put, get, index_from, index,
}

pub same_key_sound : (a b : CellKey) → same_key a b ≡ true → a ≡ b
unfolding same_key
same_key_sound a b e = ground (
  arith,
  same_text_sound a.focus_area b.focus_area,
  same_text_sound a.experiment b.experiment,
  same_text_sound a.language b.language,
  same_text_sound a.metric b.metric,
)

pub same_key_refl : (a : CellKey) → same_key a a ≡ true
unfolding same_key
same_key_refl a = ground (
  arith,
  same_text_refl a.focus_area,
  same_text_refl a.experiment,
  same_text_refl a.language,
  same_text_refl a.metric,
)

module _ {F : Type 0} (fl : Floats F) where
  get-put :
      (k k' : CellKey) (v : ResultLine F) (m : List (CellKey × ResultLine F))
      → get fl k (put fl k' v m) ≡ (if same_key k k' then some v else get fl k m)
  unfolding get put
  get-put k k' v [] = refl
  get-put k k' v ((h, x) ∷ m) = ground (
    arith,
    get-put k k' v m,
    same_key_sound k' h,
    same_key_sound k h,
    same_key_sound k k',
    same_key_refl k',
  )

  -- The last line of a cell that is no placeholder, or else what there was before.
  unfoldable pub last_line :
      CellKey → Option (ResultLine F) → List (ResultLine F) → Option (ResultLine F)
  last_line k found [] = found
  last_line k found (l ∷ ls) =
      last_line k
        (if is_placeholder fl l
          then found
          else if same_key k (cell_key fl l)
          then some l
          else found)
        ls

  index_from-last :
      (k : CellKey) (m : List (CellKey × ResultLine F)) (ls : List (ResultLine F))
      → get fl k (index_from fl m ls) ≡ last_line k (get fl k m) ls
  unfolding index_from last_line
  index_from-last k m [] = refl
  index_from-last k m (l ∷ ls) = elim (Bool-cases (is_placeholder fl l)) [
    | inl e ↦ rw e (index_from-last k m ls)
    | inr e ↦ rw e (
        index_from-last k (put fl (cell_key fl l) l m) ls
        ∙ ap (λ o. last_line k o ls) (get-put k (cell_key fl l) l m))
  ]

  -- The index of a run finds for each cell the last of its lines that is no placeholder, and nothing
  -- where there is none.
  pub get-index :
      (k : CellKey) (lines : List (ResultLine F))
      → get fl k (index fl lines) ≡ last_line k none lines
  unfolding index get
  get-index k lines = index_from-last k [] lines
