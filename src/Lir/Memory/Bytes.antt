-- ===== src/Lir/Memory/Bytes.antt =====
-- src/lir/eval.rs, `Allocation`: a read after a write, and what a write leaves alone.
use roto.Prelude.{
  ◌⊎◌, inl, inr, sym, ℕ, zero, suc, ◌+◌, ◌-◌, ◌%◌, ◌≤◌, ◌≡◌, ◌∙◌, ap, refl, Option, some, none,
  List, [], ◌∷◌, ◌++◌, length, take, drop, length-take, length-drop, length-append, ◌>>=◌, some_inj,
  arith,
}
use roto.Lir.Memory.{Allocation, allocation_read, allocation_write, check_access}

module _ {ℓ} {A : Type ℓ} where
  take-append_length : (xs ys : List A) (n : ℕ) → n ≡ length xs → take n (xs ++ ys) ≡ xs
  take-append_length [] ys zero h = refl
  take-append_length [] ys (suc n) h = absurd (omega arith)
  take-append_length (x ∷ xs) ys zero h = absurd (omega arith)
  take-append_length (x ∷ xs) ys (suc n) h = rw (take-append_length xs ys n (omega arith))

  drop-append_length : (xs ys : List A) (n : ℕ) → n ≡ length xs → drop n (xs ++ ys) ≡ ys
  drop-append_length [] ys zero h = refl
  drop-append_length [] ys (suc n) h = absurd (omega arith)
  drop-append_length (x ∷ xs) ys zero h = absurd (omega arith)
  drop-append_length (x ∷ xs) ys (suc n) h = drop-append_length xs ys n (omega arith)

  -- `val` put over the elements from `i` on.
  abbrev pub splice : List A → ℕ → List A → List A
  splice xs i val = take i xs ++ (val ++ drop (i + length val) xs)

  pub length-splice :
      (xs val : List A) (i : ℕ) → i + length val ≤ length xs → length (splice xs i val) ≡ length xs
  length-splice xs val i h = omega (
    arith,
    length-append (take i xs) (val ++ drop (i + length val) xs),
    length-append val (drop (i + length val) xs),
    length-take i xs,
    length-drop (i + length val) xs,
  )

  splice_read :
      (xs val : List A) (i : ℕ)
      → i + length val ≤ length xs
      → take (length val) (drop i (splice xs i val)) ≡ val
  splice_read xs val i h =
      rw
        (drop-append_length (take i xs) (val ++ drop (i + length val) xs) i
          (omega (arith, length-take i xs)))
        (take-append_length val (drop (i + length val) xs) (length val) refl)

  take-take_append :
      (xs ys : List A) (i n : ℕ) → n ≤ i → i ≤ length xs → take n (take i xs ++ ys) ≡ take n xs
  take-take_append xs ys i zero h le = refl
  take-take_append xs ys zero (suc n) h le = absurd (omega arith)
  take-take_append [] ys (suc i) (suc n) h le = absurd (omega arith)
  take-take_append (x ∷ xs) ys (suc i) (suc n) h le =
      ap (λ r. x ∷ r) (take-take_append xs ys i n (omega arith) (omega arith))

  read_before :
      (xs ys : List A) (i j n : ℕ)
      → i ≤ length xs
      → j + n ≤ i
      → take n (drop j (take i xs ++ ys)) ≡ take n (drop j xs)
  read_before xs ys i zero n h le = take-take_append xs ys i n (omega arith) h
  read_before [] ys i (suc j) n h le = absurd (omega arith)
  read_before (x ∷ xs) ys zero (suc j) n h le = absurd (omega arith)
  read_before (x ∷ xs) ys (suc i) (suc j) n h le =
      read_before xs ys i j n (omega arith) (omega arith)

  drop-append_behind :
      (xs ys : List A) (n d : ℕ) → n ≡ length xs + d → drop n (xs ++ ys) ≡ drop d ys
  drop-append_behind [] ys n d h = let e : n ≡ d = omega arith in rw e
  drop-append_behind (x ∷ xs) ys zero d h = absurd (omega arith)
  drop-append_behind (x ∷ xs) ys (suc n) d h = drop-append_behind xs ys n d (omega arith)

  drop-drop : (xs : List A) (a b n : ℕ) → n ≡ b + a → drop a (drop b xs) ≡ drop n xs
  drop-drop xs a zero n h = let e : a ≡ n = omega arith in rw e
  drop-drop [] a (suc b) zero h = absurd (omega arith)
  drop-drop [] zero (suc b) (suc n) h = refl
  drop-drop [] (suc a) (suc b) (suc n) h = refl
  drop-drop (x ∷ xs) a (suc b) zero h = absurd (omega arith)
  drop-drop (x ∷ xs) a (suc b) (suc n) h = drop-drop xs a b n (omega arith)

  -- Ranges that do not meet the written one are left alone.
  splice_apart :
      (xs val : List A) (i j n : ℕ)
      → i + length val ≤ length xs
      → (j + n ≤ i) ⊎ (i + length val ≤ j)
      → take n (drop j (splice xs i val)) ≡ take n (drop j xs)
  splice_apart xs val i j n h (inl before) =
      read_before xs (val ++ drop (i + length val) xs) i j n (omega arith) before
  splice_apart xs val i j n h (inr behind) = ap (take n) (
      drop-append_behind (take i xs) (val ++ drop (i + length val) xs) j (j - i)
        (omega (arith, length-take i xs))
      ∙ drop-append_behind val (drop (i + length val) xs) (j - i) (j - i - length val) (omega arith)
      ∙ drop-drop xs (j - i - length val) (i + length val) j (omega arith))

-- What the checks of an access establish.
pub check_access-some :
    (offset size : ℕ) (a : Allocation)
    → check_access offset size a ≡ some tt
    → (offset + size ≤ length a.inner) × (offset % size ≡ 0)
check_access-some offset size a h = ground arith

pub Unit-cases : (o : Option (Unit {0})) → (o ≡ none) ⊎ (o ≡ some tt)
Unit-cases none = inl refl
Unit-cases (some tt) = inr refl

-- A write succeeds exactly where its checks do, and then puts the bytes at the offset.
pub allocation_write-inv :
    (a : Allocation) (offset : ℕ) (val : List ℕ) {a' : Allocation}
    → allocation_write a offset val ≡ some a'
    → (check_access offset (length val) a ≡ some tt) × (a'.inner ≡ splice a.inner offset val)
unfolding allocation_write
allocation_write-inv a offset val h = elim (Unit-cases (check_access offset (length val) a)) [
  | inl fails ↦ let bad : none ≡ some _ = rw fails at h in cc
  | inr e ↦ (e, ap (λ x. x.inner) (sym (some_inj (rw e at h))))
]

module _ (a a' : Allocation) (offset : ℕ) (val : List ℕ) where
  pub allocation_write-length :
      allocation_write a offset val ≡ some a' → length a'.inner ≡ length a.inner
  allocation_write-length h =
      let (c, e) = allocation_write-inv a offset val h in
      rw e (length-splice a.inner val offset (check_access-some offset (length val) a c).0)

  pub allocation_read-write :
      allocation_write a offset val ≡ some a' → allocation_read a' offset (length val) ≡ some val
  unfolding allocation_read
  allocation_read-write h =
      let (c, e) = allocation_write-inv a offset val h in
      let (le, _) = check_access-some offset (length val) a c in
      rw (allocation_write-length h, c, e) (ap some (splice_read a.inner val offset le))

  pub allocation_read-write_apart :
      (j n : ℕ)
      → allocation_write a offset val ≡ some a'
      → (j + n ≤ offset) ⊎ (offset + length val ≤ j)
      → allocation_read a' j n ≡ allocation_read a j n
  unfolding allocation_read
  allocation_read-write_apart j n h d =
      let (c, e) = allocation_write-inv a offset val h in
      let (le, _) = check_access-some offset (length val) a c in
      rw (allocation_write-length h, e)
        (ap (λ bs. check_access j n a >>= λ _. some bs) (splice_apart a.inner val offset j n le d))
