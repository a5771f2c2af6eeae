-- ===== src/Kernel/Dispatch/Ring.antt =====
-- Circular doubly linked lists: what the `next` and `prev` fields of a ready queue spell out, and
-- what the two ways of relinking do to it.
use tos_sfsu_fall.Base.{
  ◌≡◌, ◌∙◌, true, false, ◌||◌, append-nil, List, [], ◌∷◌, ◌++◌, arith, ◌==◌, if◌then◌else◌, has,
  has-append, Distinct-append, Distinct-before-after, ◌∈◌, ◌∉◌, Distinct, before, after, ==_iff,
  Bool-cases, inl, inr,
}
use tos_sfsu_fall.Kernel.State.{Ptr, null}

-- From `a` the fields lead through `xs` to `b`, and back again.
abbrev pub Linked : (next prev : Ptr → Ptr) → Ptr → List Ptr → Ptr → Type 0
Linked next prev a [] b = (next a ≡ b) × (prev b ≡ a)
Linked next prev a (x ∷ xs) b = (next a ≡ x) × (prev x ≡ a) × Linked next prev x xs b

-- The head pointer and the links of one level. An empty level has a NULL head.
abbrev pub Ring : (next prev : Ptr → Ptr) → Ptr → List Ptr → Type 0
Ring next prev head [] = head ≡ null
Ring next prev head (x ∷ xs) = (head ≡ x) × Linked next prev x xs x

abbrev pub last : Ptr → List Ptr → Ptr
last a [] = a
last a (x ∷ xs) = last x xs

pub last-mem : (a : Ptr) (xs : List Ptr) → last a xs ∈ (a ∷ xs)
last-mem a [] = ground arith
last-mem a (x ∷ xs) = ground (arith, last-mem x xs)

module _ (next prev : Ptr → Ptr) where
  pub prev-last : (a b : Ptr) (xs : List Ptr) → Linked next prev a xs b → prev b ≡ last a xs
  prev-last a b [] l = l.1
  prev-last a b (x ∷ xs) l = prev-last x b xs l.2

  pub Linked-append :
      (a c b : Ptr) (xs ys : List Ptr)
      → Linked next prev a xs c
      → Linked next prev c ys b
      → Linked next prev a (xs ++ (c ∷ ys)) b
  Linked-append a c b [] ys l m = (l.0, l.1, m)
  Linked-append a c b (x ∷ xs) ys l m = (l.0, l.1, Linked-append x c b xs ys l.2 m)

  -- A stretch can be cut at each of its members.
  pub Linked-cut :
      (a c b : Ptr) (xs : List Ptr)
      → Linked next prev a xs b
      → c ∈ xs
      → Linked next prev a (before c xs) c × Linked next prev c (after c xs) b
  unfolding before after
  Linked-cut a c b [] l m = ground arith
  Linked-cut a c b (x ∷ xs) l m = ground (arith, Linked-cut x c b xs l.2)

  -- The links of others may change.
  pub Linked-frame :
      {next' prev' : Ptr → Ptr} (a b : Ptr) (xs : List Ptr)
      → Linked next prev a xs b
      → ((q : Ptr) → q ∈ (a ∷ xs) → next' q ≡ next q)
      → ((q : Ptr) → q ∈ (b ∷ xs) → prev' q ≡ prev q)
      → Linked next' prev' a xs b
  Linked-frame a b [] l fn fp = (fn a (ground arith) ∙ l.0, fp b (ground arith) ∙ l.1)
  Linked-frame a b (x ∷ xs) l fn fp = (
    fn a (ground arith) ∙ l.0,
    fp x (ground arith) ∙ l.1,
    Linked-frame x b xs l.2 (λ q m. fn q (ground arith)) (λ q m. fp q (ground arith)),
  )

  -- The last link is turned from `b` to `c`.
  pub Linked-retarget :
      {next' prev' : Ptr → Ptr} (a b c : Ptr) (xs : List Ptr)
      → Linked next prev a xs b
      → Distinct (a ∷ xs)
      → c ∉ xs
      → ((q : Ptr) → q ∈ (a ∷ xs) → next' q ≡ (if q == last a xs then c else next q))
      → ((q : Ptr) → q ∈ (c ∷ xs) → prev' q ≡ (if q == c then last a xs else prev q))
      → Linked next' prev' a xs c
  Linked-retarget a b c [] l d out fn fp = (ground (arith, fn a), ground (arith, fp c))
  Linked-retarget a b c (x ∷ xs) l d out fn fp = (
    ground (arith, fn a, last-mem x xs),
    ground (arith, fp x),
    Linked-retarget x b c xs l.2 d.1 (ground arith) (λ q m. fn q (ground arith))
        (λ q m. fp q (ground arith)),
  )

-- The members of a ring after `p`, round to `p` again.
unfoldable pub around : Ptr → List Ptr → List Ptr
unfolding before after
around p xs = after p xs ++ before p xs

pub has-around : (p q : Ptr) (xs : List Ptr) → p ∈ xs → has q xs ≡ ((q == p) || has q (around p xs))
unfolding around
has-around p q [] m = ground arith
has-around p q (x ∷ xs) m = ground (
  arith,
  has-around p q xs,
  has-append q (after p xs) (before p xs),
  has-append q (after p xs) (x ∷ before p xs),
  has-append q xs [],
)

around-head : (p x : Ptr) (xs : List Ptr) → (p == x) ≡ true → around p (x ∷ xs) ≡ xs
unfolding around
around-head p x xs e = rw e (append-nil xs)

around-tail :
    (p x : Ptr) (xs : List Ptr)
    → (p == x) ≡ false
    → around p (x ∷ xs) ≡ after p xs ++ (x ∷ before p xs)
unfolding around
around-tail p x xs e = rw e

pub Distinct-around : (p : Ptr) (xs : List Ptr) → Distinct xs → Distinct (p ∷ around p xs)
unfolding around
Distinct-around p xs d =
    let (b, a, out, out', apart) = Distinct-before-after p xs d in
    (
      ground (arith, has-append p (after p xs) (before p xs)),
      Distinct-append (after p xs) (before p xs) a b λ q m. ground (arith, apart q),
    )

pub Ring-rotate :
    (next prev : Ptr → Ptr) (p head : Ptr) (xs : List Ptr)
    → Ring next prev head xs
    → p ∈ xs
    → Linked next prev p (around p xs) p
Ring-rotate next prev p head [] r m = ground arith
Ring-rotate next prev p head (x ∷ xs) r m = elim (Bool-cases (p == x)) [
  | inl e ↦ rw (around-head p x xs e, (==_iff p x).0 e) r.1
  | inr e ↦
      let cut = Linked-cut next prev x p x xs r.1 (ground arith) in
      rw (around-tail p x xs e)
        (Linked-append next prev p x p (after p xs) (before p xs) cut.1 cut.0)
]

-- A ring that is not touched.
pub Ring-frame :
    (next prev next' prev' : Ptr → Ptr) (head : Ptr) (xs : List Ptr)
    → Ring next prev head xs
    → ((q : Ptr) → q ∈ xs → (next' q ≡ next q) × (prev' q ≡ prev q))
    → Ring next' prev' head xs
Ring-frame next prev next' prev' head [] r same = r
Ring-frame next prev next' prev' head (x ∷ xs) r same =
    (r.0, Linked-frame next prev x x xs r.1 (λ q m. (same q m).0) (λ q m. (same q m).1))
