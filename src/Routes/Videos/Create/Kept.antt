-- ===== src/Routes/Videos/Create/Kept.antt =====
-- gateway/src/routes/videos.ts, POST /v1/videos, keeps what the INSERT keeps.
use nidora_ai_inference.Base.{
  ℕ, ◌+◌, ◌≡◌, refl, inl, inr, Option, none, some, List, Option-cases, Str,
}
use nidora_ai_inference.Domain.Types.{Number, Job}
use nidora_ai_inference.Store.Db.{Db, get}
use nidora_ai_inference.Routes.State.{Gateway}
use nidora_ai_inference.Store.Jobs.{NewJob, create}
use nidora_ai_inference.Artifacts.{write_input}
use nidora_ai_inference.Ids.{new_video_id}
use nidora_ai_inference.Domain.Sizing.{Floats}
use nidora_ai_inference.Scheduler.Config.{Config}
use nidora_ai_inference.Routes.Videos.Create.{
  Body, Check, pass, stop, Admitted, admit, new_job, created, insert, after_checks, create_video,
}

module _ (fl : Floats) (sha256 : List ℕ → Str) (to_number : Str → Option Number) (config : Config)
    (On : List Job → Type 0)
    (keeps : (n : NewJob) (db db' : Db) → create n db ≡ some db' → On db.jobs → On db'.jobs) where
  created-kept :
      (id : Str) (g : Gateway) (o : Option Db)
      → On g.db.jobs
      → ((db : Db) → o ≡ some db → On db.jobs)
      → On (created fl sha256 to_number config id g o).0.db.jobs
  unfolding created
  created-kept id g none s f = s
  created-kept id g (some db) s f = elim (Option-cases (get id db)) [
    | inl e ↦ rw (e, created) (f db refl)
    | inr (job, e) ↦ rw (e, created) (f db refl)
  ]

  insert-kept :
      (id : Str) (a : Admitted) (g : Gateway)
      → On g.db.jobs
      → On (insert fl sha256 to_number config id a g).0.db.jobs
  unfolding insert
  insert-kept id a g s =
      let (disk, path) = write_input id a.image.extension a.image.bytes g.disk in
      let db : Db = record g.db { drawn = g.db.drawn + 1 } in
      let n = new_job fl sha256 to_number config id a path g.db.clock in
      created-kept id (record g { disk = disk }) (create n db) s (λ db' e. keeps n db db' e s)

  after_checks-kept :
      (id : Str) (g : Gateway) (c : Check Admitted)
      → On g.db.jobs
      → On (after_checks fl sha256 to_number config id g c).0.db.jobs
  unfolding after_checks
  after_checks-kept id g (stop r) s = s
  after_checks-kept id g (pass a) s = insert-kept id a g s

  pub create_video-kept :
      (random_bytes : ℕ → List ℕ) (body : Body) (g : Gateway)
      → On g.db.jobs
      → On (create_video fl sha256 to_number random_bytes config body g).0.db.jobs
  unfolding create_video
  create_video-kept random_bytes body g s =
      after_checks-kept (new_video_id (random_bytes g.db.drawn)) g
        (admit fl sha256 to_number config body g.db) s
