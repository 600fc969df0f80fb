-- ===== src/Routes/Models/Listing.antt =====
-- gateway/src/routes/models.ts: what the listing shows.
use nidora_ai_inference.Base.{
  ℕ, ◌+◌, ◌-◌, ◌≡◌, refl, sym, ap, ◌∙◌, inl, inr, Bool, true, not, ◌&&◌, ◌||◌, if◌then◌else◌,
  if-elim, Option, none, some, is_some, Option-cases, List, [], ◌∷◌, map, any, All, All-map, arith,
  Str, str_eq, str_eq_iff, column_is,
}
use nidora_ai_inference.Domain.Types.{Pod}
use nidora_ai_inference.Domain.Models.{lookup_model, models, resolve_model_id, get_model}
use nidora_ai_inference.Domain.Models.Closed.{resolve_model_id-known}
use nidora_ai_inference.Store.Db.{Db}
use nidora_ai_inference.Store.Pods.{pod_model, list_connected}
use nidora_ai_inference.Scheduler.Config.{Config}
use nidora_ai_inference.Scheduler.Reaper.{for_each}
use nidora_ai_inference.Routes.State.{sent}
use nidora_ai_inference.Routes.Models.{
  ModelEntry, Ready, ready_of, add_ready, usable, tally_as, tally, insert_key, str_le, sort,
  entry_of, entries, ready_models, reply_entries, list_models,
}

abbrev is_key : Str → Str → Bool
is_key id k = str_eq k id

abbrev keys : Ready → List Str
keys r = map (λ e. e.0) r

abbrev pub loads : Str → Pod → Bool
loads id p = column_is (pod_model p) id

-- The pods of a list that have loaded a model, whose engine is ready, and that are not draining.
pub usable_for : Str → List Pod → ℕ
usable_for id [] = 0
usable_for id (p ∷ ps) =
    (if loads id p && (p.sglang_ready && not p.draining) then 1 else 0) + usable_for id ps

abbrev IsKnown : Str → Type 0
IsKnown id = is_some (get_model (some id)) ≡ true

get_model-lookup :
    (c : ℕ) (cs : Str) → is_some (lookup_model (c ∷ cs) models) ≡ true → IsKnown (c ∷ cs)
unfolding get_model resolve_model_id
get_model-lookup c cs h = ground arith

pod_model-IsKnown : (p : Pod) (c : ℕ) (cs : Str) → pod_model p ≡ some (c ∷ cs) → IsKnown (c ∷ cs)
unfolding pod_model
pod_model-IsKnown p c cs h =
    get_model-lookup c cs (resolve_model_id-known p.model_path (c ∷ cs) h).0

usable-counts :
    (p : Pod) (b : Bool)
    → (if b then usable p else 0) ≡ (if b && (p.sglang_ready && not p.draining) then 1 else 0)
usable-counts p b = ground arith

module _ (c : ℕ) (cs : Str) where
  ready_of-add_ready :
      (k : Str) (n : ℕ) (r : Ready)
      → ready_of (c ∷ cs) (add_ready k n r)
        ≡ ready_of (c ∷ cs) r + (if str_eq k (c ∷ cs) then n else 0)
  unfolding ready_of add_ready
  ready_of-add_ready k n [] = ground arith
  ready_of-add_ready k n ((j, m) ∷ r) = ground (
    arith,
    str_eq_iff j k,
    str_eq_iff j (c ∷ cs),
    str_eq_iff k (c ∷ cs),
    ready_of-add_ready k n r,
  )

  any-add_ready :
      (k : Str) (n : ℕ) (r : Ready)
      → any (is_key (c ∷ cs)) (keys (add_ready k n r))
        ≡ (str_eq k (c ∷ cs) || any (is_key (c ∷ cs)) (keys r))
  unfolding add_ready
  any-add_ready k n [] = ground arith
  any-add_ready k n ((j, m) ∷ r) =
      ground
        (arith, str_eq_iff j k, str_eq_iff j (c ∷ cs), str_eq_iff k (c ∷ cs), any-add_ready k n r)

  tally-ready_of :
      (p : Pod) (r : Ready)
      → ready_of (c ∷ cs) (tally p r)
        ≡ ready_of (c ∷ cs) r + (if loads (c ∷ cs) p then usable p else 0)
  unfolding tally str_eq
  tally-ready_of p r = go (pod_model p)
    where
      go :
          (o : Option Str)
          → ready_of (c ∷ cs) (tally_as o p r)
            ≡ ready_of (c ∷ cs) r + (if column_is o (c ∷ cs) then usable p else 0)
      go none = ground arith
      go (some []) = ground arith
      go (some (d ∷ ds)) = ready_of-add_ready (d ∷ ds) (usable p) r

  tally-any :
      (p : Pod) (r : Ready)
      → any (is_key (c ∷ cs)) (keys (tally p r))
        ≡ (loads (c ∷ cs) p || any (is_key (c ∷ cs)) (keys r))
  unfolding tally str_eq
  tally-any p r = go (pod_model p)
    where
      go :
          (o : Option Str)
          → any (is_key (c ∷ cs)) (keys (tally_as o p r))
            ≡ (column_is o (c ∷ cs) || any (is_key (c ∷ cs)) (keys r))
      go none = refl
      go (some []) = refl
      go (some (d ∷ ds)) = any-add_ready (d ∷ ds) (usable p) r

  for_each-ready_of :
      (ps : List Pod) (r : Ready)
      → ready_of (c ∷ cs) (for_each tally ps r) ≡ ready_of (c ∷ cs) r + usable_for (c ∷ cs) ps
  unfolding for_each usable_for
  for_each-ready_of [] r = omega arith
  for_each-ready_of (p ∷ ps) r = omega (
    arith,
    for_each-ready_of ps (tally p r),
    tally-ready_of p r,
    usable-counts p (loads (c ∷ cs) p),
  )

  for_each-any :
      (ps : List Pod) (r : Ready)
      → any (is_key (c ∷ cs)) (keys (for_each tally ps r))
        ≡ (any (loads (c ∷ cs)) ps || any (is_key (c ∷ cs)) (keys r))
  unfolding for_each
  for_each-any [] r = refl
  for_each-any (p ∷ ps) r = for_each-any ps (tally p r) ∙ ground (arith, tally-any p r)

add_ready-All :
    (k : Str) (n : ℕ) (r : Ready)
    → IsKnown k
    → All IsKnown (keys r)
    → All IsKnown (keys (add_ready k n r))
unfolding add_ready
add_ready-All k n [] h hs = (h, tt)
add_ready-All k n ((j, m) ∷ r) h (g, hs) =
    if-elim (λ (q : Ready). All IsKnown (keys q)) (str_eq j k) _ _ (λ e. (g, hs))
      (λ e. (g, add_ready-All k n r h hs))

tally-All : (p : Pod) (r : Ready) → All IsKnown (keys r) → All IsKnown (keys (tally p r))
unfolding tally
tally-All p r hs = go (pod_model p) refl
  where
    go : (o : Option Str) → pod_model p ≡ o → All IsKnown (keys (tally_as o p r))
    go none e = hs
    go (some []) e = hs
    go (some (d ∷ ds)) e = add_ready-All (d ∷ ds) (usable p) r (pod_model-IsKnown p d ds e) hs

for_each-All :
    (ps : List Pod) (r : Ready) → All IsKnown (keys r) → All IsKnown (keys (for_each tally ps r))
unfolding for_each
for_each-All [] r hs = hs
for_each-All (p ∷ ps) r hs = for_each-All ps (tally p r) (tally-All p r hs)

insert_key-All :
    (k : Str) (ks : List Str) → IsKnown k → All IsKnown ks → All IsKnown (insert_key k ks)
unfolding insert_key
insert_key-All k [] h hs = (h, tt)
insert_key-All k (x ∷ xs) h (g, hs) =
    if-elim (All IsKnown) (str_le k x) _ _ (λ e. (h, (g, hs))) (λ e. (g, insert_key-All k xs h hs))

sort-All : (ks : List Str) → All IsKnown ks → All IsKnown (sort ks)
unfolding sort
sort-All [] hs = tt
sort-All (k ∷ ks) (h, hs) = insert_key-All k (sort ks) h (sort-All ks hs)

any-insert_key :
    (p : Str → Bool) (k : Str) (ks : List Str) → any p (insert_key k ks) ≡ (p k || any p ks)
unfolding insert_key
any-insert_key p k [] = refl
any-insert_key p k (x ∷ xs) = ground (arith, any-insert_key p k xs)

any-sort : (p : Str → Bool) (ks : List Str) → any p (sort ks) ≡ any p ks
unfolding sort
any-sort p [] = refl
any-sort p (k ∷ ks) = any-insert_key p k (sort ks) ∙ ap (◌||◌ (p k)) (any-sort p ks)

-- What the loop over the keys builds: an entry for each key, with its count.
abbrev Lists : Ready → List Str → Type 0
Lists r ids =
    (es : List ModelEntry) × (entries r ids ≡ some es)
    × (map (λ e. e.id) es ≡ ids)
    × All (λ e. e.pods_ready ≡ ready_of e.id r) es

entries-known : (r : Ready) (ids : List Str) → All IsKnown ids → Lists r ids
unfolding entries
entries-known r [] hs = ([], refl, refl, tt)
entries-known r (id ∷ ids) (h, hs) = elim (Option-cases (get_model (some id))) [
  | inl e ↦ absurd (ground arith)
  | inr (spec, e) ↦
      let (es, p, q, a) = entries-known r ids hs in
      (entry_of r id spec ∷ es, rw (e, p) refl, ap (◌∷◌ id) q, (refl, a))
]

ready_of-nil : (c : ℕ) (cs : Str) (n : ℕ) → ready_of (c ∷ cs) [] + n ≡ n
unfolding ready_of
ready_of-nil c cs n = omega arith

any-map :
    (p : Str → Bool) (es : List ModelEntry) → any p (map (λ e. e.id) es) ≡ any (λ e. p e.id) es
any-map p [] = refl
any-map p (e ∷ es) = ap (◌||◌ (p e.id)) (any-map p es)

-- The listing never ends in an exception. It names a model, which is not the empty string, exactly if
-- a pod that is connected has loaded it; and with each name it gives the number of those pods that are
-- ready and not draining.
pub list_models-serves :
    (config : Config) (db : Db)
    → let ps = list_connected (db.clock - config.pod_stale_ms) db in
      (es : List ModelEntry) × (list_models config db ≡ sent 200 es)
      × ((c : ℕ) (cs : Str) → any (λ e. str_eq e.id (c ∷ cs)) es ≡ any (loads (c ∷ cs)) ps)
      × ((c : ℕ) (cs : Str) → All (λ e. e.id ≡ c ∷ cs → e.pods_ready ≡ usable_for (c ∷ cs) ps) es)
unfolding list_models ready_models
list_models-serves config db =
    let ps : List Pod = list_connected (db.clock - config.pod_stale_ms) db in
    let r : Ready = for_each tally ps [] in
    let (es, p, q, a) =
      entries-known r (sort (keys r)) (sort-All (keys r) (for_each-All ps [] tt)) in
    (
      es,
      ap reply_entries p,
      (λ c cs.
          sym (any-map (is_key (c ∷ cs)) es)
          ∙ ap (any (is_key (c ∷ cs))) q
          ∙ any-sort (is_key (c ∷ cs)) (keys r)
          ∙ for_each-any c cs ps []
          ∙ ground arith),
      (λ c cs.
          All-map (λ e. e.pods_ready ≡ ready_of e.id r)
            (λ e. e.id ≡ c ∷ cs → e.pods_ready ≡ usable_for (c ∷ cs) ps)
            (λ e h same.
              h
              ∙ ap (λ k. ready_of k r) same
              ∙ for_each-ready_of c cs ps []
              ∙ ready_of-nil c cs (usable_for (c ∷ cs) ps))
            es a),
    )
