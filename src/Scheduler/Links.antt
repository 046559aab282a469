-- ===== src/Scheduler/Links.antt =====
-- Linked segments: the addresses that the links of a store run through.
use lightstreak_os.Base.{ℕ, ◌≡◌, ◌≢◌, refl, sym, subst, ◌∙◌, List, [], ◌∷◌, ◌++◌}

-- From `p`, the links run through the list to `q`.
unfoldable pub Links : (ℕ → ℕ) → ℕ → List ℕ → ℕ → Type 0
Links next p [] q = p ≡ q
Links next p (x ∷ xs) q = (p ≡ x) × Links next (next x) xs q

-- The first address of a list, or what comes behind it.
abbrev pub start : List ℕ → ℕ → ℕ
start [] q = q
start (x ∷ xs) q = x

-- The last address of a list with `x` in front.
abbrev pub last : ℕ → List ℕ → ℕ
last x [] = x
last x (y ∷ ys) = last y ys

unfoldable pub NotIn : ℕ → List ℕ → Type 0
NotIn p [] = Unit {0}
NotIn p (x ∷ xs) = (p ≢ x) × NotIn p xs

unfoldable pub AreApart : List ℕ → Type 0
AreApart [] = Unit {0}
AreApart (x ∷ xs) = NotIn x xs × AreApart xs

pub NotIn-last : (p y : ℕ) (ys : List ℕ) → NotIn p (y ∷ ys) → p ≢ last y ys
unfolding NotIn
NotIn-last p y [] (h, _) = h
NotIn-last p y (z ∷ zs) (_, h) = NotIn-last p z zs h

-- The link of the last address of a segment is the end of the segment.
pub Links-last :
    (next : ℕ → ℕ) (x q : ℕ) (xs : List ℕ) → Links next x (x ∷ xs) q → next (last x xs) ≡ q
unfolding Links
Links-last next x q [] (_, e) = e
Links-last next x q (y ∷ ys) (_, (n, h)) = Links-last next y q ys (refl, h)

-- The last address of the front is not in the back.
pub last-NotIn : (x p : ℕ) (xs zs : List ℕ) → AreApart ((x ∷ xs) ++ (p ∷ zs)) → NotIn (last x xs) zs
unfolding AreApart NotIn
last-NotIn x p [] zs ((_, n), _) = n
last-NotIn x p (y ∷ ys) zs (_, a) = last-NotIn y p ys zs a

pub NotIn-append : (p : ℕ) (xs ys : List ℕ) → NotIn p (xs ++ ys) → NotIn p xs × NotIn p ys
unfolding NotIn
NotIn-append p [] ys h = (tt, h)
NotIn-append p (x ∷ xs) ys (n, h) = let (a, b) = NotIn-append p xs ys h in ((n, a), b)

pub append-AreApart : (xs ys : List ℕ) → AreApart (xs ++ ys) → AreApart xs
unfolding AreApart
append-AreApart [] ys a = tt
append-AreApart (x ∷ xs) ys (n, a) = ((NotIn-append x xs ys n).0, append-AreApart xs ys a)

pub append-NotIn : (p : ℕ) (xs ys : List ℕ) → NotIn p xs → NotIn p ys → NotIn p (xs ++ ys)
unfolding NotIn
append-NotIn p [] ys a b = b
append-NotIn p (x ∷ xs) ys (n, a) b = (n, append-NotIn p xs ys a b)

-- A list of different addresses without one of them.
pub AreApart-drop :
    (p : ℕ) (ys zs : List ℕ) → AreApart (ys ++ (p ∷ zs)) → AreApart (ys ++ zs) × NotIn p (ys ++ zs)
unfolding AreApart NotIn
AreApart-drop p [] zs (n, a) = (a, n)
AreApart-drop p (y ∷ ys) zs (n, a) =
    let (apart, out) = AreApart-drop p ys zs a in
    let (front, (np, back)) = NotIn-append y ys (p ∷ zs) n in
    ((append-NotIn y ys zs front back, apart), (λ e. np (sym e), out))

pub Links-append :
    (next : ℕ → ℕ) (p q : ℕ) (xs ys : List ℕ)
    → Links next p (xs ++ ys) q
    → Links next p xs (start ys q) × Links next (start ys q) ys q
unfolding Links
Links-append next p q [] [] h = (h, refl)
Links-append next p q [] (y ∷ ys) (e, h) = (e, (refl, h))
Links-append next p q (x ∷ xs) ys (e, h) =
    let (a, b) = Links-append next (next x) q xs ys h in ((e, a), b)

pub append-Links :
    (next : ℕ → ℕ) (p m q : ℕ) (xs ys : List ℕ)
    → Links next p xs m
    → Links next m ys q
    → Links next p (xs ++ ys) q
unfolding Links
append-Links next p m q [] ys e h = subst (λ a. Links next a ys q) (sym e) h
append-Links next p m q (x ∷ xs) ys (e, a) h = (e, append-Links next (next x) m q xs ys a h)

-- A segment stays where no link of its own changes.
pub Links-frame :
    (next later : ℕ → ℕ) (p q : ℕ) (xs : List ℕ)
    → Links next p xs q
    → (a b : ℕ) → NotIn a xs
    → NotIn b xs
    → ((x : ℕ) → x ≢ a → x ≢ b → later x ≡ next x)
    → Links later p xs q
unfolding Links NotIn
Links-frame next later p q [] h a b na nb same = h
Links-frame next later p q (x ∷ xs) (e, h) a b (na, outa) (nb, outb) same = (
  e,
  subst (λ y. Links later y xs q) (sym (same x (λ z. na (sym z)) (λ z. nb (sym z))))
      (Links-frame next later (next x) q xs h a b outa outb same),
)

-- A segment whose last link, and perhaps that of `b` outside it, changes.
pub Links-redirect :
    (next later : ℕ → ℕ) (x q r : ℕ) (xs : List ℕ)
    → Links next x (x ∷ xs) q
    → AreApart (x ∷ xs)
    → (b : ℕ) → NotIn b (x ∷ xs)
    → later (last x xs) ≡ r
    → ((y : ℕ) → y ≢ last x xs → y ≢ b → later y ≡ next y)
    → Links later x (x ∷ xs) r
unfolding Links NotIn AreApart
Links-redirect next later x q r [] h a b nb e same = (refl, e)
Links-redirect next later x q r (y ∷ ys) (_, (n, h)) (nx, a) b (nb, bs) e same = (
  refl,
  subst (λ z. Links later z (y ∷ ys) r) (sym (same x (NotIn-last x y ys nx) (λ z. nb (sym z)) ∙ n))
      (Links-redirect next later y q r ys (refl, h) a b bs e same),
)
