-- ===== src/Codec/Error.antt =====
-- The `Error` and `Result` of crates/tactus-wire/src/codec.rs.
use Prim.Native.String.{String}
use link_wire_rs.Common.{ℕ, ◌≡◌, refl, Bool, true, false}

pub data Error : Type 0 where
  truncated : Error
  bad_magic : Error
  unknown_message_type : ℕ → Error
  malformed : String → Error

-- `stuck` is no value of the program: a loop on fuel ran out of it. The decoders never return it.
pub data Result {ℓ} (A : Type ℓ) : Type ℓ where
  ok : A → Result A
  err : Error → Result A
  stuck : Result A

-- The operator `?`.
infixl 5 ◌>>=◌
abbrev pub ◌>>=◌ {ι κ} : {X : Type ι} {Y : Type κ} → Result X → (X → Result Y) → Result Y
ok x >>= rest = rest x
err why >>= rest = err why
stuck >>= rest = stuck

infixl 5 ◌>>◌
abbrev pub ◌>>◌ {ℓ} : {B : Type ℓ} → Result (Unit {0}) → Result B → Result B
m >> k = m >>= λ _. k

-- `if b { return Err(e); }`
abbrev pub reject_if : Bool → Error → Result (Unit {0})
reject_if true e = err e
reject_if false e = ok tt

-- A step and what follows it succeed only where both do.
pub >>=-eq-ok {ι κ} :
    {X : Type ι} {Y : Type κ} (step : Result X) (rest : X → Result Y) {y : Y}
    → step >>= rest ≡ ok y
    → (x : X) × (step ≡ ok x) × (rest x ≡ ok y)
>>=-eq-ok (ok x) rest h = (x, refl, h)
>>=-eq-ok (err why) rest h = cc
>>=-eq-ok stuck rest h = cc

-- The loop of a decoder had fuel enough.
abbrev pub Ends {ℓ} : {A : Type ℓ} → Result A → Type 0
Ends (ok a) = Unit
Ends (err e) = Unit
Ends stuck = ⊥

pub Ends->>= {ℓ κ} :
    {A : Type ℓ} {B : Type κ} (m : Result A) (f : A → Result B)
    → Ends m
    → ((a : A) → Ends (f a))
    → Ends (m >>= f)
Ends->>= (ok a) f h k = k a
Ends->>= (err e) f h k = tt
Ends->>= stuck f h k = h

-- The same by continuation, which keeps the value a variable in a long chain.
pub >>=-inv {ℓ κ ι} :
    {A : Type ℓ} {B : Type κ} {P : Type ι} (m : Result A) (f : A → Result B) {b : B}
    → (m >>= f) ≡ ok b
    → ((a : A) → m ≡ ok a → f a ≡ ok b → P)
    → P
>>=-inv (ok a) f h k = k a refl h
>>=-inv (err e) f h k = absurd (cc)
>>=-inv stuck f h k = absurd (cc)

pub >>=-ap {ℓ κ} :
    {A : Type ℓ} {B : Type κ} (m : Result A) (f g : A → Result B)
    → ((a : A) → m ≡ ok a → f a ≡ g a)
    → (m >>= f) ≡ (m >>= g)
>>=-ap (ok a) f g h = h a refl
>>=-ap (err e) f g h = refl
>>=-ap stuck f g h = refl

-- The rest of a chain may use that its first part succeeded.
pub Ends->>=-ok {ℓ κ} :
    {A : Type ℓ} {B : Type κ} (m : Result A) (f : A → Result B)
    → Ends m
    → ((a : A) → m ≡ ok a → Ends (f a))
    → Ends (m >>= f)
Ends->>=-ok (ok a) f h k = k a refl
Ends->>=-ok (err e) f h k = tt
Ends->>=-ok stuck f h k = h
