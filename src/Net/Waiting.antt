-- ===== src/Net/Waiting.antt =====
-- Who waits in a `NetService`, and that every wait ends, once.
use new_rpc.Base.{
  ℕ, ◌≡◌, ◌≢◌, refl, inl, inr, Bool, true, false, List, [], ◌∷◌, none, some, ◌==◌, if◌then◌else◌,
  arith, Bool-cases,
}
use new_rpc.Net.Service.{MaintainInfo, find_waiting, insert_waiting, erase_waiting, remove_timer}

-- No id stands twice in the map.
abbrev pub HasUniqueIds : List (ℕ × MaintainInfo) → Type 0
HasUniqueIds [] = Unit {0}
HasUniqueIds ((j, info) ∷ m) = (find_waiting j m ≡ none) × HasUniqueIds m

abbrev pub has_timer : ℕ → List (ℕ × ℕ) → Bool
has_timer id [] = false
has_timer id ((j, d) ∷ ts) = if j == id then true else has_timer id ts

pub find-insert :
    (i j : ℕ) (info : MaintainInfo) (m : List (ℕ × MaintainInfo))
    → find_waiting j m ≡ none
    → find_waiting i (insert_waiting j info m) ≡ (if j == i then some info else find_waiting i m)
unfolding find_waiting insert_waiting
find-insert i j info [] h = refl
find-insert i j info ((k, old) ∷ m) h = ground (arith, find-insert i j info m)

pub insert-found :
    (j : ℕ) (info old : MaintainInfo) (m : List (ℕ × MaintainInfo))
    → find_waiting j m ≡ some old
    → insert_waiting j info m ≡ m
unfolding find_waiting insert_waiting
insert-found j info old [] h = absurd (cc)
insert-found j info old ((k, x) ∷ m) h = ground (arith, insert-found j info old m)

pub find-erase :
    (i j : ℕ) (m : List (ℕ × MaintainInfo))
    → HasUniqueIds m
    → find_waiting i (erase_waiting j m) ≡ (if j == i then none else find_waiting i m)
unfolding find_waiting erase_waiting
find-erase i j [] u = ground arith
find-erase i j ((k, x) ∷ m) u = ground (arith, find-erase i j m u.1)

pub insert-HasUniqueIds :
    (j : ℕ) (info : MaintainInfo) (m : List (ℕ × MaintainInfo))
    → HasUniqueIds m
    → HasUniqueIds (insert_waiting j info m)
unfolding insert_waiting find_waiting
insert-HasUniqueIds j info [] u = (refl, tt)
insert-HasUniqueIds j info ((k, x) ∷ m) u = elim (Bool-cases (k == j)) [
  | inl same ↦ rw same u
  | inr other ↦
      rw other (ground (arith, find_other k j info m other u.0), insert-HasUniqueIds j info m u.1)
]
  where
    find_other :
        (k j : ℕ) (info : MaintainInfo) (m : List (ℕ × MaintainInfo))
        → (k == j) ≡ false
        → find_waiting k m ≡ none
        → find_waiting k (insert_waiting j info m) ≡ none
    find_other k j info [] h g = ground arith
    find_other k j info ((i, y) ∷ m) h g = ground (arith, find_other k j info m h)

pub erase-HasUniqueIds :
    (j : ℕ) (m : List (ℕ × MaintainInfo)) → HasUniqueIds m → HasUniqueIds (erase_waiting j m)
unfolding erase_waiting
erase-HasUniqueIds j [] u = tt
erase-HasUniqueIds j ((k, x) ∷ m) u = elim (Bool-cases (k == j)) [
  | inl same ↦ rw same u.1
  | inr other ↦ rw other (ground (arith, find-erase k j m u.1), erase-HasUniqueIds j m u.1)
]

pub has_timer-remove_timer :
    (i j : ℕ) (ts : List (ℕ × ℕ)) → i ≢ j → has_timer i (remove_timer j ts) ≡ has_timer i ts
unfolding remove_timer
has_timer-remove_timer i j [] h = refl
has_timer-remove_timer i j ((k, d) ∷ ts) h = ground (arith, has_timer-remove_timer i j ts h)
