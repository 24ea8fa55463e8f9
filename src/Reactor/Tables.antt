-- ===== src/Reactor/Tables.antt =====
-- Maps with numbers as keys (`std::unordered_map<int, …>`), with one entry for each key.
use rtsp_server.Prelude.{
  ℕ, ◌≡◌, ◌≢◌, refl, [], ◌∷◌, List, Option, none, some, ◌==◌, if◌then◌else◌, arith,
}

abbrev pub Table : Type 0 → Type 0
Table A = List (ℕ × A)

module _ {A : Type 0} where
  unfoldable pub get : ℕ → Table A → Option A
  get k [] = none
  get k ((j, v) ∷ m) = if j == k then some v else get k m

  unfoldable pub put : ℕ → A → Table A → Table A
  put k v [] = (k, v) ∷ []
  put k v ((j, w) ∷ m) = if j == k then (j, v) ∷ m else (j, w) ∷ put k v m

  unfoldable pub erase : ℕ → Table A → Table A
  erase k [] = []
  erase k ((j, w) ∷ m) = let rest = erase k m in if j == k then rest else (j, w) ∷ rest

  pub get-put : (k : ℕ) (v : A) (m : Table A) → get k (put k v m) ≡ some v
  unfolding get put
  get-put k v [] = ground arith
  get-put k v ((j, w) ∷ m) = ground (arith, get-put k v m)

  pub get-put_other : (k j : ℕ) (v : A) (m : Table A) → k ≢ j → get k (put j v m) ≡ get k m
  unfolding get put
  get-put_other k j v [] h = ground arith
  get-put_other k j v ((i, w) ∷ m) h = ground (arith, get-put_other k j v m h)

  pub get-erase : (k : ℕ) (m : Table A) → get k (erase k m) ≡ none
  unfolding get erase
  get-erase k [] = refl
  get-erase k ((j, w) ∷ m) = ground (arith, get-erase k m)

  pub get-erase_other : (k j : ℕ) (m : Table A) → k ≢ j → get k (erase j m) ≡ get k m
  unfolding get erase
  get-erase_other k j [] h = refl
  get-erase_other k j ((i, w) ∷ m) h = ground (arith, get-erase_other k j m h)
