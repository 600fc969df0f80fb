-- ===== src/Auth/Keys.antt =====
-- gateway/src/auth.ts: which requests pass the gates of the client and the operator routes.
use nidora_ai_inference.Base.{
  ◌≡◌, refl, sym, ap, ◌∙◌, inl, inr, ℕ, Bool, true, false, ◌&&◌, ◌||◌, if◌then◌else◌, Option, none,
  some, List, [], ◌∷◌, arith, any, All, Bool-cases, Str, str_eq, str_eq_refl, str_eq_sound, truthy,
}
use nidora_ai_inference.Auth.{
  Headers, allowed, unauthorized, request_key, safe_equal, match_from, matches_any, check_key,
  require_api_key, accepted_keys, admin_key, require_admin_key,
}

-- The digest tells a key from each accepted secret that differs from it.
abbrev pub Separates : (Str → List ℕ) → Str → List Str → Type 0
Separates digest key = All (λ s. digest key ≡ digest s → key ≡ s)

-- A key that is not empty and stands among the accepted ones.
abbrev pub is_accepted : Option Str → List Str → Bool
is_accepted none accepted = false
is_accepted (some key) accepted = truthy key && any (str_eq key) accepted

module _ (digest : Str → List ℕ) where
  pub safe_equal-str_eq :
      (a b : Str) → (digest a ≡ digest b → a ≡ b) → safe_equal digest a b ≡ str_eq a b
  unfolding safe_equal
  safe_equal-str_eq a b h = elim (Bool-cases (safe_equal digest a b)) [
    | inl e ↦
        e
        ∙ sym
            (ap (λ k. str_eq a k) (sym (h (str_eq_sound (digest a) (digest b) e))) ∙ str_eq_refl a)
    | inr e ↦ ground (arith, e, str_eq_refl (digest a), str_eq_sound a b)
  ]

  match_from-any :
      (hit : Bool) (key : Str) (accepted : List Str)
      → Separates digest key accepted
      → match_from digest hit key accepted ≡ (hit || any (str_eq key) accepted)
  unfolding match_from
  match_from-any hit key [] h = ground arith
  match_from-any hit key (s ∷ ss) (h, hs) =
      match_from-any (if safe_equal digest key s then true else hit) key ss hs
      ∙ ground (arith, safe_equal-str_eq key s h)

  pub check_key-accepted :
      (o : Option Str) (accepted : List Str)
      → ((key : Str) → o ≡ some key → Separates digest key accepted)
      → check_key digest o accepted ≡ (if is_accepted o accepted then allowed else unauthorized)
  unfolding check_key matches_any
  check_key-accepted none accepted h = refl
  check_key-accepted (some key) accepted h =
      ground (arith, match_from-any false key accepted (h key refl))

  -- Where the digest tells the presented key from every accepted one that differs: a client route lets
  -- a request in exactly if its key, from X-Api-Key or else the bearer token, is one of the client
  -- keys. An operator route goes by X-Admin-Key, or else that key, and by the admin keys, or the
  -- client keys where there are none. All others get the same 401; an empty key never passes.
  pub require_key-accepted :
      (admin_keys api_keys : List Str) (h : Headers)
      → ((key : Str) → request_key h ≡ some key → Separates digest key api_keys)
      → ((key : Str)
          → admin_key h ≡ some key
          → Separates digest key (accepted_keys admin_keys api_keys))
      → (require_api_key digest api_keys h
          ≡ (if is_accepted (request_key h) api_keys then allowed else unauthorized))
        × (require_admin_key digest admin_keys api_keys h ≡ (
            if is_accepted (admin_key h) (accepted_keys admin_keys api_keys)
            then allowed
            else unauthorized))
  unfolding require_api_key require_admin_key
  require_key-accepted admin_keys api_keys h p q = (
    check_key-accepted (request_key h) api_keys p,
    check_key-accepted (admin_key h) (accepted_keys admin_keys api_keys) q,
  )
