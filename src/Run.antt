-- ===== src/Run.antt =====
-- The outcome of a C function that reports failure by its result (`false`, NULL or -1). The models
-- check every write into a fixed buffer, so an outcome also says when the C code would leave it; a
-- read of a token that the tokenizer has not set is `stray`.
use s3ro.Base.{◌≡◌, refl, Bool, true, false}

pub data Run {ℓ} (A : Type ℓ) : Type ℓ where
  ok : A → Run A
  refuse : Run A
  overrun : Run A
  stuck : Run A
  stray : Run A

-- How a function ends without a result: it fails, or has read what is not set.
abbrev pub halted {ℓ} : {A : Type ℓ} → (wild : Bool) → Run A
halted true = stray
halted false = refuse

infixl 5 ◌>>=◌ ◌>>◌
abbrev pub ◌>>=◌ {ℓ κ} : {A : Type ℓ} {B : Type κ} → Run A → (A → Run B) → Run B
ok a >>= f = f a
refuse >>= f = refuse
overrun >>= f = overrun
stuck >>= f = stuck
stray >>= f = stray

abbrev pub ◌>>◌ {ℓ} : {B : Type ℓ} → Run (Unit {0}) → Run B → Run B
m >> k = m >>= λ _. k

pub >>=-halted {ℓ κ} :
    {A : Type ℓ} {B : Type κ} (wild : Bool) (rest : A → Run B) → halted wild >>= rest ≡ halted wild
>>=-halted true rest = refl
>>=-halted false rest = refl

-- `if (!test) return false;`
abbrev pub require : Bool → Run (Unit {0})
require true = ok tt
require false = refuse

-- The bounds of a buffer that is about to be written.
abbrev pub within_bounds : Bool → Run (Unit {0})
within_bounds true = ok tt
within_bounds false = overrun

-- A run that went on to a result had a first half.
pub >>=-eq-ok {ℓ κ} :
    {A : Type ℓ} {B : Type κ} (first : Run A) (rest : A → Run B) {result : B}
    → first >>= rest ≡ ok result
    → (half : A) × (first ≡ ok half) × (rest half ≡ ok result)
>>=-eq-ok (ok half) rest e = (half, refl, e)
>>=-eq-ok refuse rest e = cc
>>=-eq-ok overrun rest e = cc
>>=-eq-ok stuck rest e = cc
>>=-eq-ok stray rest e = cc

pub require-ok : (b : Bool) {u : Unit {0}} → require b ≡ ok u → b ≡ true
require-ok true h = refl
require-ok false h = cc

pub ok-injective {ℓ} : {A : Type ℓ} {a b : A} → ok a ≡ ok b → a ≡ b
ok-injective h = cc
