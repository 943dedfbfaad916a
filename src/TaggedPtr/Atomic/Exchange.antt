-- ===== src/TaggedPtr/Atomic/Exchange.antt =====
-- lockfree/tagged_ptr.cc: what `exchange_tag` and `exchange_ptr` leave in the cell, whatever other
-- threads do to it between the attempts.
use jowi_asio.Base.{ℕ, ◌%◌, ◌^◌, ◌<◌, ◌≡◌, ◌≢◌, ◌⊎◌, inl, inr, ap, sym, ◌∙◌, arith}
use jowi_asio.Base.{Bool, Option, none, some, List, [], ◌∷◌, ◌++◌}
use jowi_asio.Atomic.{Attempt, clean}
use jowi_asio.TaggedPtr.{TagSize, null_tag, raw_ptr, tag, to_raw_pair, from_pair}
use jowi_asio.TaggedPtr.Words.{tag_limit, from_pair_fields}
use jowi_asio.TaggedPtr.Words.{raw_ptr_value, tag-lt, tag-null}
use mathlib.Core.Option.{some-injective}
use native.Mathlib.Nat.{mod-eq_of_lt}
use jowi_asio.TaggedPtr.Atomic.{
  left_in, retag, exchange_tag_loop, exchange_tag, repoint, store_tag, store_ptr, exchange_ptr_loop,
  exchange_ptr,
}

module _ (d : TagSize) where
  exchange_tag_loop-retag :
      (t : ℕ) (rest : List Attempt) (cur target old new : ℕ)
      → target ≡ retag d t cur
      → exchange_tag_loop d t rest cur target ≡ some (old, new)
      → new ≡ retag d t old
  unfolding exchange_tag_loop
  exchange_tag_loop-retag t [] cur target old new e h = cc
  exchange_tag_loop-retag t (a ∷ rest) cur target old new e h =
      ground (arith, exchange_tag_loop-retag t rest a.seen (retag d t a.seen) old new)

  exchange_ptr_loop-repoint :
      (p : ℕ) (rest : List Attempt) (cur target old new : ℕ)
      → target ≡ repoint d p cur
      → exchange_ptr_loop d p rest cur target ≡ some (old, new)
      → new ≡ repoint d p old
  unfolding exchange_ptr_loop
  exchange_ptr_loop-repoint p [] cur target old new e h = cc
  exchange_ptr_loop-repoint p (a ∷ rest) cur target old new e h =
      ground (arith, exchange_ptr_loop-repoint p rest a.seen (repoint d p a.seen) old new)

  null_tag-zero : null_tag 6 0 ≡ 0
  unfolding null_tag
  null_tag-zero = omega arith

  -- Either the loop retags the old word, or the first attempt has met the null word and kept it.
  exchange_tag_cases :
      (t : ℕ) (rest : List Attempt) (old new : ℕ)
      → exchange_tag d t rest ≡ some (old, new)
      → (new ≡ retag d t old) ⊎ ((old ≡ 0) × (new ≡ 0))
  unfolding exchange_tag exchange_tag_loop
  exchange_tag_cases t [] old new h = cc
  exchange_tag_cases t (a ∷ rest) old new h =
      ground
        (arith, null_tag-zero, exchange_tag_loop-retag t rest a.seen (retag d t a.seen) old new)

  retag_fields :
      (t old : ℕ)
      → (raw_ptr 6 (retag d t old) ≡ raw_ptr 6 old) × (tag 6 d (retag d t old) ≡ t % tag_limit d)
  unfolding retag
  retag_fields t old =
      let f = from_pair_fields d (raw_ptr 6 old) t in (omega (arith, f, raw_ptr_value old), f.1)

  -- Whatever other threads do between its attempts, a finished `exchange_tag` has left the pointer
  -- as it was and put the tag in, cut to its size, unless the old word was the null word.
  pub exchange_tag_lem :
      (t : ℕ) (rest : List Attempt) (old new : ℕ)
      → exchange_tag d t rest ≡ some (old, new)
      → (raw_ptr 6 new ≡ raw_ptr 6 old) × ((tag 6 d new ≡ t % tag_limit d) ⊎ (old ≡ 0))
  exchange_tag_lem t rest old new h = elim (exchange_tag_cases t rest old new h) [
    | inl e ↦ let f = retag_fields t old in (ap (raw_ptr 6) e ∙ f.0, inl (ap (tag 6 d) e ∙ f.1))
    | inr e ↦ (ap (raw_ptr 6) (e.1 ∙ sym e.0), inr e.0)
  ]

  -- On a cell that holds the null word `exchange_tag` finishes at its first attempt without the
  -- tag: the cell keeps the null word, and a tag other than 0 is lost.
  pub exchange_tag-null :
      (t : ℕ) (rest : List Attempt)
      → 0 < t
      → t < tag_limit d
      → (exchange_tag d t (clean 0 ∷ rest) ≡ some (0, 0))
        × (tag 6 d 0 ≢ t)
        × (from_pair 6 d (raw_ptr 6 0) t ≢ 0)
  unfolding exchange_tag exchange_tag_loop
  exchange_tag-null t rest pos small = (
    ap (λ (w : ℕ). some (0, w)) null_tag-zero,
    (λ e. omega (arith, tag-null d)),
    (λ e. omega (
      arith,
      mod-eq_of_lt small,
      (from_pair_fields d (raw_ptr 6 0) t).1,
      ap (tag 6 d) e,
      tag-null d,
    )),
  )

  exchange_ptr_repoints :
      (p : ℕ) (rest : List Attempt) (old new : ℕ)
      → exchange_ptr d p rest ≡ some (old, new)
      → new ≡ repoint d p old
  unfolding exchange_ptr repoint to_raw_pair
  exchange_ptr_repoints p rest old new h =
      exchange_ptr_loop-repoint p rest 0 (from_pair 6 d p 0) old new repoint-null h
    where
      repoint-null : from_pair 6 d p 0 ≡ repoint d p 0
      repoint-null = ap (from_pair 6 d p) (sym (tag-null d))

  -- Whatever other threads do between its attempts, a finished `exchange_ptr` has put the pointer's
  -- low 48 bits in and left the tag as it was in the word that it returns.
  pub exchange_ptr_lem :
      (p : ℕ) (rest : List Attempt) (old new : ℕ)
      → exchange_ptr d p rest ≡ some (old, new)
      → (raw_ptr 6 new ≡ p % 2 ^ 48) × (tag 6 d new ≡ tag 6 d old)
  unfolding repoint to_raw_pair
  exchange_ptr_lem p rest old new h =
      let e = exchange_ptr_repoints p rest old new h in
      let f = from_pair_fields d p (tag 6 d old) in
      (ap (raw_ptr 6) e ∙ f.0, ap (tag 6 d) e ∙ (f.1 ∙ mod-eq_of_lt (tag-lt d old)))

  exchange_tag_loop-finishes :
      (t : ℕ) (before : List Attempt) (cur target v : ℕ) (s : Bool)
      → exchange_tag_loop d t
          (before ++ record { seen = v; spurious = s } ∷ clean v ∷ [])
          cur
          target
        ≢ none
  unfolding exchange_tag_loop
  exchange_tag_loop-finishes t [] cur target v s = ground arith
  exchange_tag_loop-finishes t (a ∷ before) cur target v s =
      ground (arith, exchange_tag_loop-finishes t before a.seen (retag d t a.seen) v s)

  exchange_ptr_loop-finishes :
      (p : ℕ) (before : List Attempt) (cur target v : ℕ) (s : Bool)
      → exchange_ptr_loop d p
          (before ++ record { seen = v; spurious = s } ∷ clean v ∷ [])
          cur
          target
        ≢ none
  unfolding exchange_ptr_loop
  exchange_ptr_loop-finishes p [] cur target v s = ground arith
  exchange_ptr_loop-finishes p (a ∷ before) cur target v s =
      ground (arith, exchange_ptr_loop-finishes p before a.seen (repoint d p a.seen) v s)

  -- A call of `exchange_tag` or `exchange_ptr` that sees one value at two attempts in a row, the
  -- second one not failing spuriously, has finished by then, whatever came before.
  pub exchanges_finish :
      (x : ℕ) (before : List Attempt) (v : ℕ) (s : Bool)
      → (exchange_tag d x (before ++ record { seen = v; spurious = s } ∷ clean v ∷ []) ≢ none)
        × (exchange_ptr d x (before ++ record { seen = v; spurious = s } ∷ clean v ∷ []) ≢ none)
  unfolding exchange_tag exchange_ptr
  exchanges_finish x before v s = (
    exchange_tag_loop-finishes x before 0 (null_tag 6 0) v s,
    exchange_ptr_loop-finishes x before 0 (from_pair 6 d x 0) v s,
  )

  finished :
      (o : Option (ℕ × ℕ)) (new : ℕ) → left_in o ≡ some new → (old : ℕ) × (o ≡ some (old, new))
  unfolding left_in
  finished none new h = absurd (cc)
  finished (some (old, left)) new h =
      (old, ap (λ (w : ℕ). some (old, w)) (some-injective left new h))

  -- A finished `store_ptr` has put the pointer's low 48 bits in the cell.
  store_ptr_lem :
      (p : ℕ) (rest : List Attempt) (new : ℕ)
      → store_ptr d p rest ≡ some new
      → raw_ptr 6 new ≡ p % 2 ^ 48
  unfolding store_ptr
  store_ptr_lem p rest new h =
      let (old, e) = finished (exchange_ptr d p rest) new h in (exchange_ptr_lem p rest old new e).0

  -- A finished `store_tag` has put the tag in the cell, unless it has found the null word there.
  store_tag_lem :
      (t : ℕ) (rest : List Attempt) (new : ℕ)
      → store_tag d t rest ≡ some new
      → (tag 6 d new ≡ t % tag_limit d)
        ⊎ ((old : ℕ) × (exchange_tag d t rest ≡ some (old, new)) × (old ≡ 0))
  unfolding store_tag
  store_tag_lem t rest new h =
      let (old, e) = finished (exchange_tag d t rest) new h in
      elim (exchange_tag_lem t rest old new e).1 [ inl a ↦ inl a | inr z ↦ inr (old, e, z) ]
