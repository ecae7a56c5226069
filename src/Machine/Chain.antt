-- ===== src/Machine/Chain.antt =====
-- Linked lists in memory: the records that the `next` words lead through from an address to NULL.
use microcsp.Base.{
  ◌≡◌, refl, sym, ◌≢◌, true, false, List, [], ◌∷◌, ◌++◌, arith, ◌==◌, update, has, last_or,
  has-last_or, IsDistinct, head_or, has-append, subst,
}
use microcsp.Machine.Types.{Ptr, null}

abbrev pub Chain : (Ptr → Ptr) → Ptr → List Ptr → Type 0
Chain next p [] = p ≡ null
Chain next p (x ∷ xs) = (p ≡ x) × (x ≢ null) × Chain next (next x) xs

-- A chain survives any change that spares its own words.
pub Chain-frame :
    (next next' : Ptr → Ptr) (p : Ptr) (xs : List Ptr)
    → Chain next p xs
    → ((a : Ptr) → has a xs ≡ true → next' a ≡ next a)
    → Chain next' p xs
Chain-frame next next' p [] c same = c
Chain-frame next next' p (x ∷ xs) c same = (
  c.0,
  c.1,
  ground (arith, same x, Chain-frame next next' (next x) xs c.2 (λ a i. same a (ground arith))),
)

pub Chain-head :
    (next : Ptr → Ptr) (p : Ptr) (xs : List Ptr) → Chain next p xs → p ≡ head_or null xs
Chain-head next p [] c = c
Chain-head next p (x ∷ xs) c = c.0

pub Chain-start :
    (next : Ptr → Ptr) (p q : Ptr) (xs : List Ptr) → p ≡ q → Chain next p xs → Chain next q xs
Chain-start next p q xs e = subst (λ r. Chain next r xs) e

pub Chain-update :
    (next : Ptr → Ptr) (a v p : Ptr) (xs : List Ptr)
    → has a xs ≡ false
    → Chain next p xs
    → Chain (update next a v) p xs
Chain-update next a v p xs out c = Chain-frame next _ p xs c (λ b i. ground arith)

-- Linking a new last record behind the old one.
pub Chain-append :
    (next : Ptr → Ptr) (p x : Ptr) (xs : List Ptr)
    → Chain next x (x ∷ xs)
    → IsDistinct (x ∷ xs)
    → has p (x ∷ xs) ≡ false
    → p ≢ null
    → Chain (update (update next (last_or x xs) p) p null) x (x ∷ xs ++ p ∷ [])
Chain-append next p x [] c d out ne = ground arith
Chain-append next p x (y ∷ xs) c d out ne =
    let ih = Chain-append next p y xs (refl, c.2.1, c.2.2) d.1 (ground arith) ne in
    let apart : (last_or y xs == x) ≡ false = ground (arith, has-last_or y xs) in
    (refl, c.1, (ground (arith, c.2.0), c.2.1, ih.2))

-- Two chains from one address hold the same records.
pub Chain-unique :
    (next : Ptr → Ptr) (p : Ptr) (xs ys : List Ptr) → Chain next p xs → Chain next p ys → xs ≡ ys
Chain-unique next p [] [] c d = refl
Chain-unique next p [] (y ∷ ys) c d = absurd (ground arith)
Chain-unique next p (x ∷ xs) [] c d = absurd (ground arith)
Chain-unique next p (x ∷ xs) (y ∷ ys) c d =
    let same : x ≡ y = ground arith in
    ground (arith, same, Chain-unique next (next y) xs ys (rw same at c.2) d.2)

-- Linking a record in behind the last one of a front part.
pub Chain-insert :
    (next : Ptr → Ptr) (x f : Ptr) (front back : List Ptr)
    → Chain next f (f ∷ front ++ back)
    → IsDistinct (f ∷ front ++ back)
    → has x (f ∷ front ++ back) ≡ false
    → x ≢ null
    → Chain
        (update (update next (last_or f front) x) x (head_or null back))
        f
        (f ∷ front ++ x ∷ back)
Chain-insert next x f [] back c d out ne =
    let kept =
      Chain-update _ x (head_or null back) (next f) back (ground arith)
        (Chain-update next f x (next f) back d.0 c.2) in
    let at = Chain-head next (next f) back c.2 in
    (refl, c.1, (ground arith, ne, Chain-start _ _ _ back (ground arith) kept))
Chain-insert next x f (g ∷ front) back c d out ne =
    let ih = Chain-insert next x g front back (refl, c.2.1, c.2.2) d.1 (ground arith) ne in
    let apart : (last_or g front == f) ≡ false =
      ground (arith, has-last_or g front, has-append f (g ∷ front) back) in
    (refl, c.1, (ground (arith, c.2.0), c.2.1, ih.2))

-- Taking out the record behind the last one of a front part.
pub Chain-remove :
    (next : Ptr → Ptr) (x f : Ptr) (front back : List Ptr)
    → Chain next f (f ∷ front ++ x ∷ back)
    → IsDistinct (f ∷ front ++ x ∷ back)
    → Chain (update next (last_or f front) (next x)) f (f ∷ front ++ back)
Chain-remove next x f [] back c d =
    let kept = Chain-update next f (next x) (next x) back (ground arith) c.2.2 in
    (refl, c.1, Chain-start _ _ _ back (ground arith) kept)
Chain-remove next x f (g ∷ front) back c d =
    let ih = Chain-remove next x g front back (refl, c.2.1, c.2.2) d.1 in
    let apart : (last_or g front == f) ≡ false =
      ground (arith, has-last_or g front, has-append f (g ∷ front) (x ∷ back)) in
    (refl, c.1, (ground (arith, c.2.0), c.2.1, ih.2))

-- No record of a chain is NULL.
pub Chain-last :
    (next : Ptr → Ptr) (p x : Ptr) (xs ys : List Ptr)
    → Chain next p (x ∷ xs ++ ys)
    → last_or x xs ≢ null
Chain-last next p x [] ys c = c.1
Chain-last next p x (y ∷ xs) ys c = Chain-last next (next x) y xs ys c.2

pub Chain-suffix :
    (next : Ptr → Ptr) (p : Ptr) (xs ys : List Ptr)
    → Chain next p (xs ++ ys)
    → Chain next (head_or null ys) ys
Chain-suffix next p [] ys c = Chain-start next p (head_or null ys) ys (Chain-head next p ys c) c
Chain-suffix next p (x ∷ xs) ys c = Chain-suffix next (next x) xs ys c.2

-- A chain that is cut behind one of its records.
pub Chain-cut :
    (next next' : Ptr → Ptr) (h p : Ptr) (front back : List Ptr)
    → Chain next h (front ++ p ∷ back)
    → ((a : Ptr) → has a front ≡ true → next' a ≡ next a)
    → next' p ≡ null
    → Chain next' h (front ++ p ∷ [])
Chain-cut next next' h p [] back c same end = (c.0, c.1, end)
Chain-cut next next' h p (x ∷ front) back c same end =
    let rest = Chain-cut next next' (next x) p front back c.2 (λ a i. same a (ground arith)) end in
    let kept : next' x ≡ next x = same x (ground arith) in
    (c.0, c.1, Chain-start next' (next x) (next' x) (front ++ p ∷ []) (sym kept) rest)

pub Chain-ne_null :
    (next : Ptr → Ptr) (h p : Ptr) (front back : List Ptr)
    → Chain next h (front ++ p ∷ back)
    → h ≢ null
Chain-ne_null next h p [] back c = ground (arith, c.0, c.1)
Chain-ne_null next h p (x ∷ front) back c = ground (arith, c.0, c.1)

pub last-ne_null :
    (next : Ptr → Ptr) (p x : Ptr) (xs : List Ptr) → Chain next p (x ∷ xs) → last_or x xs ≢ null
last-ne_null next p x [] c = c.1
last-ne_null next p x (y ∷ xs) c = last-ne_null next (next x) y xs c.2
