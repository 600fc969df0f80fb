-- ===== src/Routes/Videos/Create/Frame.antt =====
-- gateway/src/routes/videos.ts, POST /v1/videos: the frame of a job that is admitted.
use mathlib.Core.Option
use nidora_ai_inference.Routes.State.{raised}
use nidora_ai_inference.Base.{
  not, ℕ, ◌%◌, ◌≡◌, refl, sym, ◌∙◌, true, Option, none, some, List, [], ◌∷◌, any, if-elim, ltb,
  ◌||◌, Str,
}
use nidora_ai_inference.Domain.Types.{Resolution, p480, p720}
use nidora_ai_inference.Domain.Models.{ModelSpec}
use nidora_ai_inference.Domain.Sizing.{
  Floats, Sized, read_resolution, size_text, fit_frame, fit_size, check_size,
}
use nidora_ai_inference.Domain.Sizing.Bounds.{same, check_size-IsRenderable, fit_frame-aligned}
use nidora_ai_inference.Domain.Probe.{Dimensions}
use nidora_ai_inference.Routes.Videos.Create.{
  require, or_stop, no_such_size, allows, fitted, named_size, choose_size,
}
use nidora_ai_inference.Routes.Videos.Create.Checks.{
  Passes, bind-Passes, require-true, or_stop-Passes,
}

-- The size of an admitted job: 16-aligned sides, in a resolution that the model has.
pub record IsFramed (spec : ModelSpec) (size : Str) (r : Resolution) : Type 0 where
  pub allowed : any (same r) spec.resolutions ≡ true
  pub width : ℕ
  pub height : ℕ
  pub written : size ≡ size_text width height
  pub width_aligned : width % 16 ≡ 0
  pub height_aligned : height % 16 ≡ 0

allows-any : (rs : List Resolution) (r : Resolution) → allows rs r ≡ any (same r) rs
allows-any [] r = refl
allows-any (p480 ∷ rs) p480 = refl
allows-any (p480 ∷ rs) p720 = allows-any rs p720
allows-any (p720 ∷ rs) p480 = allows-any rs p480
allows-any (p720 ∷ rs) p720 = refl

module _ (fl : Floats) (spec : ModelSpec) where
  abbrev pub Framed : Sized → Type 0
  Framed s = IsFramed spec s.size s.resolution

  fitted-IsFramed :
      (d : Dimensions) (r : Resolution)
      → any (same r) spec.resolutions ≡ true
      → Passes Framed (fitted fl d r)
  unfolding fitted fit_size
  fitted-IsFramed d r h =
      let (p, q, _, _) = fit_frame-aligned fl d.width d.height r in
      if-elim
        (λ o.
          Passes Framed (or_stop (Option.map (λ s. record { size = s; resolution = r }) o) raised))
        (not (ltb 0 d.width) || not (ltb 0 d.height)) _ _ (λ e. tt)
        (λ e. record {
          allowed = h;
          width = (fit_frame fl d.width d.height r).0;
          height = (fit_frame fl d.width d.height r).1;
          written = refl;
          width_aligned = p;
          height_aligned = q;
        })

  named_size-IsFramed :
      (d : Dimensions) (requested : Str) (o : Option Resolution)
      → Passes Framed (named_size fl spec d requested o)
  unfolding named_size
  named_size-IsFramed d requested none =
      or_stop-Passes Framed (check_size requested spec.resolutions) no_such_size (λ s e.
        let (a, (w, h, t, i)) = check_size-IsRenderable requested spec.resolutions s e in
        record {
          allowed = a;
          width = w;
          height = h;
          written = t;
          width_aligned = i.width_aligned;
          height_aligned = i.height_aligned;
        })
  named_size-IsFramed d requested (some r) =
      bind-Passes Framed (require (allows spec.resolutions r) no_such_size) (λ _. fitted fl d r)
        (λ u e. fitted-IsFramed d r (
          sym (allows-any spec.resolutions r)
          ∙ require-true (allows spec.resolutions r) no_such_size u e))

  pub choose_size-IsFramed :
      (d : Dimensions) (requested : Str)
      → any (same p480) spec.resolutions ≡ true
      → Passes Framed (choose_size fl spec d requested)
  unfolding choose_size
  choose_size-IsFramed d [] h = fitted-IsFramed d p480 h
  choose_size-IsFramed d (c ∷ cs) h = named_size-IsFramed d (c ∷ cs) (read_resolution (c ∷ cs))
