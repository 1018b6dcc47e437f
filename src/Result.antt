-- ===== src/Result.antt =====
-- Exceptions as values: those that the program throws (src/extract/exceptions.cc,
-- src/parser/exceptions.cc) and those of the standard library that pass through it.
use citescoop.Prelude.{Bool, true, false, if◌then◌else◌, ◌≡◌, refl, ap, subst, ◌⊎◌, inl, inr}
use citescoop.Prelude.Text.{Text}

pub data Error : Type 0 where
  -- std::out_of_range, of std::map::at and of a number that does not fit
  out_of_range : Error
  -- std::invalid_argument, of a number without digits
  invalid_argument : Error
  -- an exception of another library, such as nlohmann::json::type_error
  foreign : Error
  -- the two exception classes of the program, with the text of what()
  template_parse_exception : Text → Error
  dump_parse_exception : Text → Error

-- A call throws, or returns a value.
pub data Result {ℓ} (A : Type ℓ) : Type ℓ where
  err : Error → Result A
  ok : A → Result A

infixl 5 ◌>>=◌
-- What follows a call is done only where the call returns.
abbrev pub ◌>>=◌ {κ ℓ} : {B : Type κ} {A : Type ℓ} → Result B → (B → Result A) → Result A
err thrown >>= next = err thrown
ok value >>= next = next value

-- The call returns, with a value that satisfies `P`.
abbrev pub Returns {ℓ} : {A : Type ℓ} → Result A → (A → Type 0) → Type 0
Returns (ok a) P = P a
Returns (err e) P = ⊥

module _ {ℓ κ} {A : Type ℓ} {B : Type κ} where
  -- A call that returns may be followed by one that returns from every value so reached.
  pub Returns-bind :
      (m : Result A) (f : A → Result B) (P : A → Type 0) (Q : B → Type 0)
      → Returns m P
      → ((a : A) → P a → Returns (f a) Q)
      → Returns (m >>= f) Q
  Returns-bind (ok a) f P Q h k = k a h
  Returns-bind (err e) f P Q h k = h

pub Returns-weaken {ℓ} :
    {A : Type ℓ} (m : Result A) (P Q : A → Type 0)
    → Returns m P
    → ((a : A) → P a → Q a)
    → Returns m Q
Returns-weaken (ok a) P Q h k = k a h
Returns-weaken (err e) P Q h k = h

pub Returns-and {ℓ} :
    {A : Type ℓ} (m : Result A) (P Q : A → Type 0)
    → Returns m P
    → Returns m Q
    → Returns m (λ a. P a × Q a)
Returns-and (ok a) P Q h k = (h, k)
Returns-and (err e) P Q h k = h

module _ {ℓ κ} {A : Type ℓ} {B : Type κ} where
  -- Both parts of a sequence that returns do.
  pub >>=-eq-ok :
      (first : Result A) (next : A → Result B) {last : B}
      → (first >>= next) ≡ ok last
      → (value : A) × (first ≡ ok value) × (next value ≡ ok last)
  >>=-eq-ok (err thrown) next returned = cc
  >>=-eq-ok (ok value) next returned = (value, refl, returned)

pub Returns-at {ℓ} :
    {A : Type ℓ} (m : Result A) (P : A → Type 0) {a : A} → Returns m P → m ≡ ok a → P a
Returns-at (ok b) P h e = subst P (cc) h
Returns-at (err x) P h e = absurd h

pub Result-cases {ℓ} :
    {A : Type ℓ} (m : Result A) → ((a : A) × (m ≡ ok a)) ⊎ ((x : Error) × (m ≡ err x))
Result-cases (ok a) = inl (a, refl)
Result-cases (err x) = inr (x, refl)

pub Returns-if {ℓ} :
    {A : Type ℓ} (P : A → Type 0) (b : Bool) (x y : Result A)
    → Returns x P
    → Returns y P
    → Returns (if b then x else y) P
Returns-if P true x y p q = p
Returns-if P false x y p q = q

-- What holds of the value where a call returns.
abbrev pub IfReturns {ℓ} : {A : Type ℓ} → Result A → (A → Type 0) → Type 0
IfReturns (ok value) P = P value
IfReturns (err thrown) P = Unit

module _ {ℓ κ} {A : Type ℓ} {B : Type κ} where
  pub IfReturns-bind :
      (P : A → Type 0) (Q : B → Type 0) (first : Result A) (next : A → Result B)
      → IfReturns first P
      → ((value : A) → P value → IfReturns (next value) Q)
      → IfReturns (first >>= next) Q
  IfReturns-bind P Q (ok value) next h go = go value h
  IfReturns-bind P Q (err thrown) next h go = tt

  -- The same where nothing is known of the value.
  pub IfReturns-any :
      (Q : B → Type 0) (first : Result A) (next : A → Result B)
      → ((value : A) → IfReturns (next value) Q)
      → IfReturns (first >>= next) Q
  IfReturns-any Q (ok value) next go = go value
  IfReturns-any Q (err thrown) next go = tt

pub IfReturns-if {ℓ} :
    {A : Type ℓ} (P : A → Type 0) (b : Bool) (x y : Result A)
    → IfReturns x P
    → IfReturns y P
    → IfReturns (if b then x else y) P
IfReturns-if P true x y g h = g
IfReturns-if P false x y g h = h

module _ {ℓ κ} {A : Type ℓ} {B : Type κ} where
  pub >>=-pointwise :
      (m : Result A) (f g : A → Result B) → ((a : A) → f a ≡ g a) → (m >>= f) ≡ (m >>= g)
  >>=-pointwise (ok a) f g e = e a
  >>=-pointwise (err x) f g e = refl

  pub >>=-assoc {μ} :
      {C : Type μ} (m : Result A) (f : A → Result B) (g : B → Result C)
      → ((m >>= f) >>= g) ≡ (m >>= λ a. f a >>= g)
  >>=-assoc (ok a) f g = refl
  >>=-assoc (err x) f g = refl

-- What holds of the value of a call that returns, with what holds where it returns.
pub Returns-both {ℓ} :
    {A : Type ℓ} (m : Result A) (P Q : A → Type 0)
    → Returns m P
    → IfReturns m Q
    → Returns m (λ a. P a × Q a)
Returns-both (ok a) P Q h k = (h, k)
Returns-both (err x) P Q h k = absurd h

-- Two calls that return are equal where their values are.
pub Returns-eq {ℓ} :
    {A : Type ℓ} (m n : Result A) (P Q : A → Type 0)
    → Returns m P
    → Returns n Q
    → ((a b : A) → P a → Q b → a ≡ b)
    → m ≡ n
Returns-eq (ok a) (ok b) P Q h k e = ap ok (e a b h k)
Returns-eq (ok a) (err y) P Q h k e = absurd k
Returns-eq (err x) n P Q h k e = absurd h
