-- ===== src/Hosts/RoundRobin.antt =====
-- Reads go round the read endpoints.
use mtdd.Prelude.{
  ◌⊎◌, inl, inr, ℕ, zero, suc, ◌+◌, ◌-◌, ◌%◌, ◌<◌, ◌≤◌, ◌≡◌, refl, sym, ap, ◌∙◌, subst, List, [],
  ◌∷◌, some, length, get_or, get_elem?, arith,
}
use native.Mathlib.Nat.{mod-add-mod, add-mod_left, mod-eq_of_lt, mod-lt}
use mtdd.Hosts.{Shard, pick_read_endpoint}

le_or_lt : (a b : ℕ) → (a ≤ b) ⊎ (b < a)
le_or_lt a b = ground arith

-- So many steps lead from the remainder `r` to `j`.
steps_between : (n r j : ℕ) → r < n → j < n → (i : ℕ) × (i < n) × ((r + i) % n ≡ j)
steps_between n r j lt_r lt_j = elim (le_or_lt r j) [
  | inl le ↦ (j - r, omega (arith, lt_j), ap (λ k. k % n) (omega (arith, le)) ∙ mod-eq_of_lt lt_j)
  | inr lt ↦ (
    n + j - r,
    omega (arith, lt, lt_r),
    ap (λ k. k % n) (omega (arith, lt, lt_r)) ∙ (add-mod_left n j ∙ mod-eq_of_lt lt_j),
  )
]

module _ {E : Type 0} where
  -- the shard after so many reads
  unfoldable pub after_reads : ℕ → Shard E → Shard E
  unfolding pick_read_endpoint
  after_reads zero shard = shard
  after_reads (suc n) shard = after_reads n (pick_read_endpoint shard).1

  get_or-get_elem? : (xs : List E) (i : ℕ) (d x : E) → get_elem? xs i ≡ some x → get_or xs i d ≡ x
  get_or-get_elem? [] i d x h = cc
  get_or-get_elem? (y ∷ xs) zero d x h = cc
  get_or-get_elem? (y ∷ xs) (suc i) d x h = get_or-get_elem? xs i d x h

  advanced :
      (shard : Shard E) (e : E) (reads : List E)
      → shard.reads ≡ e ∷ reads
      → (pick_read_endpoint shard).1 ≡ record shard { read_counter = suc shard.read_counter }
  unfolding pick_read_endpoint
  advanced shard e reads h = rw h

  after_reads-counter :
      (n : ℕ) (shard : Shard E) (e : E) (reads : List E)
      → shard.reads ≡ e ∷ reads
      → after_reads n shard ≡ record shard { read_counter = shard.read_counter + n }
  unfolding after_reads
  after_reads-counter zero shard e reads h =
      ap (λ k. record shard { read_counter = k }) (omega arith)
  after_reads-counter (suc n) shard e reads h =
      ap (after_reads n) (advanced shard e reads h)
      ∙ (after_reads-counter n (record shard { read_counter = suc shard.read_counter }) e reads h
          ∙ ap (λ k. record shard { read_counter = k }) (omega arith))

  picked :
      (shard : Shard E) (e : E) (reads : List E) (j : ℕ) (x : E)
      → shard.reads ≡ e ∷ reads
      → shard.read_counter % length shard.reads ≡ j
      → get_elem? shard.reads j ≡ some x
      → (pick_read_endpoint shard).0 ≡ x
  unfolding pick_read_endpoint
  picked shard e reads j x h index there =
      let at : get_elem? (e ∷ reads) (shard.read_counter % length (e ∷ reads)) ≡ some x =
        subst (λ xs. get_elem? xs (shard.read_counter % length xs) ≡ some x) h
          (ap (get_elem? shard.reads) index ∙ there) in
      rw h (get_or-get_elem? (e ∷ reads) (shard.read_counter % length (e ∷ reads)) e x at)

  within : (xs : List E) (j : ℕ) (x : E) → get_elem? xs j ≡ some x → j < length xs
  within [] j x h = cc
  within (y ∷ xs) zero x h = omega arith
  within (y ∷ xs) (suc j) x h = omega (arith, within xs j x h)

  reads-cases : (xs : List E) → (xs ≡ []) ⊎ ((e : E) × (rest : List E) × (xs ≡ e ∷ rest))
  reads-cases [] = inl refl
  reads-cases (e ∷ rest) = inr (e, rest, refl)

  reached :
      (shard : Shard E) (e : E) (rest : List E) (j : ℕ) (x : E)
      → shard.reads ≡ e ∷ rest
      → get_elem? shard.reads j ≡ some x
      → (i : ℕ) × (i < length shard.reads) × ((pick_read_endpoint (after_reads i shard)).0 ≡ x)
  reached shard e rest j x h there =
      let n = length shard.reads in
      let lt = within shard.reads j x there in
      let way =
        steps_between n (shard.read_counter % n) j (mod-lt shard.read_counter (omega (arith, lt)))
          lt in
      let moved : Shard E = record shard { read_counter = shard.read_counter + way.0 } in
      let index : moved.read_counter % n ≡ j =
        sym (mod-add-mod shard.read_counter n way.0) ∙ way.2 in
      (
        way.0,
        way.1,
        ap (λ s. (pick_read_endpoint s).0) (after_reads-counter way.0 shard e rest h)
            ∙ picked moved e rest j x h index there,
      )

  -- Every read endpoint of a shard is used again and again: from any state of the counter, one of
  -- the next reads, as many as there are read endpoints, goes to it.
  pub pick_read_endpoint-reaches :
      (shard : Shard E) (j : ℕ) (x : E)
      → get_elem? shard.reads j ≡ some x
      → (i : ℕ) × (i < length shard.reads) × ((pick_read_endpoint (after_reads i shard)).0 ≡ x)
  pick_read_endpoint-reaches shard j x there = elim (reads-cases shard.reads) [
    | inl none_left ↦
        let no : get_elem? [] j ≡ some x = subst (λ xs. get_elem? xs j ≡ some x) none_left there in
        cc
    | inr (e, rest, h) ↦ reached shard e rest j x h there
  ]
