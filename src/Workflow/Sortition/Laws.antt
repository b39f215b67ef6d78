-- ===== src/Workflow/Sortition/Laws.antt =====
-- The committee that `DeterministicDevSortition::select` chooses.
use ppsc.Base.{
  ℕ, zero, suc, ◌+◌, ◌≤◌, ◌<◌, ◌≡◌, refl, sym, ◌∙◌, inl, inr, false, List, [], ◌∷◌, arith, ◌==◌,
  if◌then◌else◌, ==_iff, Bool-cases, length, take, ok, nat_eq, pair_eq, bytes_eq, string_eq,
}
use ppsc.Core.{NodeId}
use ppsc.Base.Bytes.{Bytes}
use mathlib.Core.Path.{subst}
use ppsc.Workflow.Storage.{contains_node}
use ppsc.Workflow.Sortition.{unique, insert_by, sort_by, rank, id_key, select}

-- How often a node stands in a list.
abbrev pub count : NodeId → List NodeId → ℕ
count k [] = 0
count k (x ∷ xs) = (if k == x then 1 else 0) + count k xs

count-take : (k n : ℕ) (xs : List NodeId) → count k (take n xs) ≤ count k xs
count-take k zero xs = omega arith
count-take k (suc n) [] = omega arith
count-take k (suc n) (x ∷ xs) = omega (arith, count-take k n xs)

length-take_le : (n : ℕ) (xs : List NodeId) → n ≤ length xs → length (take n xs) ≡ n
length-take_le zero xs h = refl
length-take_le (suc n) [] h = absurd (omega arith)
length-take_le (suc n) (x ∷ xs) h = omega (arith, length-take_le n xs (omega arith))

contains_node-unique :
    (k : NodeId) (xs : List NodeId) → contains_node (unique xs) k ≡ contains_node xs k
unfolding unique
contains_node-unique k [] = refl
contains_node-unique k (x ∷ xs) =
    ground (arith, contains_node-unique k xs, contains_node-unique x xs)

length-unique : (xs : List NodeId) → length (unique xs) ≤ length xs
unfolding unique
length-unique [] = omega arith
length-unique (x ∷ xs) = ground (arith, length-unique xs)

count_absent : (k : NodeId) (xs : List NodeId) → contains_node xs k ≡ false → count k xs ≡ 0
count_absent k [] h = refl
count_absent k (x ∷ xs) h = ground (arith, count_absent k xs)

-- A list as long as the set of its members names nobody twice.
count-le-one : (k : NodeId) (xs : List NodeId) → length (unique xs) ≡ length xs → count k xs ≤ 1
unfolding unique
count-le-one k [] h = omega arith
count-le-one k (x ∷ xs) h = elim (Bool-cases (contains_node (unique xs) x)) [
  | inl again ↦ absurd (omega (arith, rw again at h, length-unique xs))
  | inr new ↦
      let rest : length (unique xs) ≡ length xs = omega (arith, rw new at h) in
      let absent = count_absent x xs (sym (contains_node-unique x xs) ∙ new) in
      ground (arith, count-le-one k xs rest, absent)
]

module _ (key : NodeId → ℕ) where
  count-insert_by :
      (k x : NodeId) (ys : List NodeId)
      → count k (insert_by key x ys) ≡ (if k == x then 1 else 0) + count k ys
  unfolding insert_by
  count-insert_by k x [] = refl
  count-insert_by k x (y ∷ ys) = ground (arith, count-insert_by k x ys)

  pub count-sort_by : (k : NodeId) (xs : List NodeId) → count k (sort_by key xs) ≡ count k xs
  unfolding sort_by
  count-sort_by k [] = refl
  count-sort_by k (x ∷ xs) = omega (arith, count-insert_by k x (sort_by key xs), count-sort_by k xs)

  length-insert_by : (x : NodeId) (ys : List NodeId) → length (insert_by key x ys) ≡ suc (length ys)
  unfolding insert_by
  length-insert_by x [] = refl
  length-insert_by x (y ∷ ys) = ground (arith, length-insert_by x ys)

  length-sort_by : (xs : List NodeId) → length (sort_by key xs) ≡ length xs
  unfolding sort_by
  length-sort_by [] = refl
  length-sort_by (x ∷ xs) = omega (arith, length-insert_by x (sort_by key xs), length-sort_by xs)

  -- Keys never fall along the list.
  abbrev pub AllFrom : ℕ → List NodeId → Type 0
  AllFrom b [] = Unit
  AllFrom b (x ∷ xs) = (b ≤ key x) × AllFrom b xs

  abbrev pub IsSorted : List NodeId → Type 0
  IsSorted [] = Unit
  IsSorted (x ∷ xs) = AllFrom (key x) xs × IsSorted xs

  from_trans : (a b : ℕ) (xs : List NodeId) → a ≤ b → AllFrom b xs → AllFrom a xs
  from_trans a b [] h p = tt
  from_trans a b (x ∷ xs) h p = (omega arith, from_trans a b xs h p.1)

  insert_by-AllFrom :
      (b : ℕ) (x : NodeId) (ys : List NodeId)
      → b ≤ key x
      → AllFrom b ys
      → AllFrom b (insert_by key x ys)
  unfolding insert_by
  insert_by-AllFrom b x [] h p = (h, tt)
  insert_by-AllFrom b x (y ∷ ys) h p = ground (arith, insert_by-AllFrom b x ys h p.1)

  insert_by-IsSorted : (x : NodeId) (ys : List NodeId) → IsSorted ys → IsSorted (insert_by key x ys)
  unfolding insert_by
  insert_by-IsSorted x [] h = (tt, tt)
  insert_by-IsSorted x (y ∷ ys) h = ground (
    arith,
    insert_by-IsSorted x ys h.1,
    insert_by-AllFrom (key y) x ys,
    from_trans (key x) (key y) ys,
  )

  sort_by-IsSorted : (xs : List NodeId) → IsSorted (sort_by key xs)
  unfolding sort_by
  sort_by-IsSorted [] = tt
  sort_by-IsSorted (x ∷ xs) = insert_by-IsSorted x (sort_by key xs) (sort_by-IsSorted xs)

  from_member : (b : ℕ) (j : NodeId) (xs : List NodeId) → AllFrom b xs → 0 < count j xs → b ≤ key j
  from_member b j [] p h = absurd (omega arith)
  from_member b j (x ∷ xs) p h = elim (Bool-cases (j == x)) [
    | inl same ↦ subst (λ (i : ℕ). b ≤ key i) (sym ((==_iff j x).0 same)) p.0
    | inr other ↦ from_member b j xs p.1 (ground arith)
  ]

  -- What a prefix of a sorted list takes has no larger key than what it leaves.
  take_lowest :
      (n : ℕ) (xs : List NodeId) (k j : NodeId)
      → IsSorted xs
      → 0 < count k (take n xs)
      → count j (take n xs) ≡ 0
      → 0 < count j xs
      → key k ≤ key j
  take_lowest zero xs k j sorted hk hj h = absurd (omega arith)
  take_lowest (suc n) [] k j sorted hk hj h = absurd (omega arith)
  take_lowest (suc n) (x ∷ xs) k j sorted hk hj h =
      let later : 0 < count j xs = ground arith in
      elim (Bool-cases (k == x)) [
        | inl same ↦
            subst (λ (i : ℕ). key i ≤ key j) (sym ((==_iff k x).0 same))
              (from_member (key x) j xs sorted.0 later)
        | inr other ↦ take_lowest n xs k j sorted.1 (ground arith) (ground arith) later
      ]

module _ (seed : Bytes) (eligible : List NodeId) (size : ℕ) {committee : List NodeId}
    (done : select seed eligible size ≡ ok committee) where
  committee_eq : committee ≡ sort_by id_key (take size (sort_by (rank seed) eligible))
  unfolding select
  committee_eq = ground arith

  no_repeats : length (unique eligible) ≡ length eligible
  unfolding select
  no_repeats = ground arith

  size_fits : size ≤ length eligible
  unfolding select
  size_fits = ground arith

  -- When the selection succeeds, the committee has the requested size and is sorted, and every
  -- node is in it at most once and at most as often as among the eligible nodes.
  pub select_committee :
      (k : NodeId)
      → (length committee ≡ size)
        × (count k committee ≤ 1)
        × (count k committee ≤ count k eligible)
        × IsSorted id_key committee
  select_committee k =
      let ranked = sort_by (rank seed) eligible in
      rw (committee_eq, length-sort_by id_key, count-sort_by id_key)
        (
          length-take_le size ranked
              (omega (arith, size_fits, length-sort_by (rank seed) eligible)),
          omega (
            arith,
            count-take k size ranked,
            count-sort_by (rank seed) k eligible,
            count-le-one k eligible no_repeats,
          ),
          omega (arith, count-take k size ranked, count-sort_by (rank seed) k eligible),
          sort_by-IsSorted id_key (take size ranked),
        )

  -- When the selection succeeds, a node of the committee never has a higher rank for the seed
  -- than an eligible node that is not in the committee.
  pub select_lowest_ranks :
      (k j : NodeId)
      → 0 < count k committee
      → 0 < count j eligible
      → count j committee ≡ 0
      → rank seed k ≤ rank seed j
  select_lowest_ranks k j hk hj hn =
      let ranked = sort_by (rank seed) eligible in
      let kept = λ (i : NodeId). count-sort_by id_key i (take size ranked) in
      let ck : count k committee ≡ count k (take size ranked) = rw committee_eq (kept k) in
      let cj : count j committee ≡ count j (take size ranked) = rw committee_eq (kept j) in
      take_lowest (rank seed) size ranked k j (sort_by-IsSorted (rank seed) eligible)
        (omega (arith, ck)) (omega (arith, cj))
        (omega (arith, count-sort_by (rank seed) j eligible))
