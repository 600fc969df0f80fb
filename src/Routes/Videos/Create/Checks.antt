-- ===== src/Routes/Videos/Create/Checks.antt =====
-- gateway/src/routes/videos.ts, POST /v1/videos: what is known of a request that has passed its checks.
use nidora_ai_inference.Base.{◌≡◌, refl, subst, Bool, true, false, Option, none, some}
use nidora_ai_inference.Domain.Serialize.{VideoResponse}
use nidora_ai_inference.Routes.State.{Reply}
use nidora_ai_inference.Routes.Videos.Create.{Check, pass, stop, ◌>>=◌, require, or_stop}

-- What is passed on meets the predicate.
abbrev pub Passes {ℓ} : {A : Type ℓ} → (A → Type 0) → Check A → Type 0
Passes P (pass a) = P a
Passes P (stop r) = Unit

pub bind-Passes {ℓ κ} :
    {A : Type ℓ} {B : Type κ} (P : B → Type 0) (m : Check A) (f : A → Check B)
    → ((a : A) → m ≡ pass a → Passes P (f a))
    → Passes P (m >>= f)
bind-Passes P (pass a) f h = h a refl
bind-Passes P (stop r) f h = tt

pub passed {ℓ} : {A : Type ℓ} (P : A → Type 0) (c : Check A) (a : A) → Passes P c → c ≡ pass a → P a
passed P c a h e = subst (Passes P) e h

pub require-true :
    (b : Bool) (r : Reply VideoResponse) (u : Unit {0}) → require b r ≡ pass u → b ≡ true
require-true true r u e = refl
require-true false r u e = cc

pub or_stop-some {ℓ} :
    {A : Type ℓ} (o : Option A) (r : Reply VideoResponse) (a : A)
    → or_stop o r ≡ pass a
    → o ≡ some a
or_stop-some none r a e = cc
or_stop-some (some b) r a e = cc

pub or_stop-Passes {ℓ} :
    {A : Type ℓ} (P : A → Type 0) (o : Option A) (r : Reply VideoResponse)
    → ((a : A) → o ≡ some a → P a)
    → Passes P (or_stop o r)
or_stop-Passes P none r h = tt
or_stop-Passes P (some a) r h = h a refl
