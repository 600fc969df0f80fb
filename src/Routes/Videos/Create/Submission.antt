-- ===== src/Routes/Videos/Create/Submission.antt =====
-- gateway/src/routes/videos.ts, POST /v1/videos: what a submission does.
use nidora_ai_inference.Base.{
  ℕ, ◌+◌, ◌≡◌, ◌⊎◌, inl, inr, Bool-cases, refl, sym, ap, ◌∙◌, true, false, Option, none, some, List,
  [], ◌∷◌, ◌++◌, any, is_some, subst, if◌then◌else◌, Str, str_eq_refl,
}
use nidora_ai_inference.Domain.Types.{Number, Job, JobEventKind}
use nidora_ai_inference.Domain.Sizing.{Floats}
use nidora_ai_inference.Store.Db.{Db, has_id, get, add_event}
use nidora_ai_inference.Store.Upkeep.{find-append, find-absent, find-present}
use nidora_ai_inference.Store.Jobs.{NewJob, new_row, create}
use nidora_ai_inference.Scheduler.Config.{Config}
use nidora_ai_inference.Artifacts.{Disk, read_file, write_file, write_input, input_path}
use nidora_ai_inference.Artifacts.Files.{read_file-write_file}
use nidora_ai_inference.Ids.{new_video_id}
use nidora_ai_inference.Routes.State.{Gateway, Reply, sent, raised, kick}
use nidora_ai_inference.Routes.Videos.Read.{respond}
use nidora_ai_inference.Domain.Serialize.{VideoResponse}
use nidora_ai_inference.Routes.Videos.Create.{
  Body, Check, pass, stop, Admitted, admit, new_job, created, insert, after_checks, create_video,
}

module _ (fl : Floats) (sha256 : List ℕ → Str) (to_number : Str → Option Number)
    (random_bytes : ℕ → List ℕ) (config : Config) (body : Body) (g : Gateway) where
  abbrev pub submitted : Gateway × Reply VideoResponse
  submitted = create_video fl sha256 to_number random_bytes config body g

  abbrev pub next_id : Str
  next_id = new_video_id (random_bytes g.db.drawn)

  -- The row of an admitted request.
  abbrev pub submitted_row : Admitted → Job
  submitted_row a = new_row (
      new_job fl sha256 to_number config next_id a (input_path next_id a.image.extension)
        g.db.clock)

  -- What an accepted submission leaves.
  pub record Queues (a : Admitted) (g' : Gateway) (answer : Reply VideoResponse) : Type 0 where
    pub reply : answer ≡ sent 200 (respond config (submitted_row a) g'.db)
    pub rows : g'.db.jobs ≡ g.db.jobs ++ submitted_row a ∷ []
    pub row : get next_id g'.db ≡ some (submitted_row a)
    pub input : read_file (input_path next_id a.image.extension) g'.disk ≡ some a.image.bytes
    pub pods : g'.db.pods ≡ g.db.pods
    pub clock : g'.db.clock ≡ g.db.clock
    pub drawn : g'.db.drawn ≡ g.db.drawn + 1
    pub waiting : g'.waiting ≡ []
    pub uploads : g'.uploads ≡ g.uploads
    pub woken : g'.woken ≡ g.woken ++ g.waiting

  abbrev inserted : Admitted → Db
  inserted a =
      add_event next_id JobEventKind.created none (some a.model)
        (record g.db { drawn = g.db.drawn + 1; jobs = g.db.jobs ++ submitted_row a ∷ [] })

  abbrev stored : Admitted → Disk
  stored a = write_file (input_path next_id a.image.extension) a.image.bytes g.disk

  get-inserted :
      (a : Admitted)
      → any (has_id next_id) g.db.jobs ≡ false
      → get next_id (inserted a) ≡ some (submitted_row a)
  unfolding get add_event new_row
  get-inserted a n = find-append next_id g.db.jobs (submitted_row a) n (str_eq_refl next_id)

  abbrev job_of : Admitted → NewJob
  job_of a =
      new_job fl sha256 to_number config next_id a (input_path next_id a.image.extension) g.db.clock

  create-inserted :
      (a : Admitted)
      → any (has_id next_id) g.db.jobs ≡ false
      → create (job_of a) (record g.db { drawn = g.db.drawn + 1 }) ≡ some (inserted a)
  unfolding create get
  create-inserted a n =
      ap (λ (o : Option Job). if is_some o then none else some (inserted a))
        (find-absent next_id g.db.jobs n)

  created-sent :
      (disk : Disk) (db : Db) (j : Job)
      → get next_id db ≡ some j
      → created fl sha256 to_number config next_id (record g { disk = disk }) (some db)
        ≡ (kick (record g { disk = disk; db = db }), sent 200 (respond config j db))
  unfolding created
  created-sent disk db j e =
      ap
        (λ (o : Option Job). elim o [
          | none ↦ (kick (record g { disk = disk; db = db }), raised)
          | some job ↦ (kick (record g { disk = disk; db = db }), sent 200 (respond config job db))
        ])
        e

  accepted :
      (a : Admitted)
      → any (has_id next_id) g.db.jobs ≡ false
      → insert fl sha256 to_number config next_id a g ≡ (
        kick (record g { disk = stored a; db = inserted a }),
        sent 200 (respond config (submitted_row a) (inserted a)),
      )
  unfolding insert write_input
  accepted a n =
      ap (created fl sha256 to_number config next_id (record g { disk = stored a }))
        (create-inserted a n)
      ∙ created-sent (stored a) (inserted a) (submitted_row a) (get-inserted a n)

  create_video-checks :
      (c : Check Admitted)
      → admit fl sha256 to_number config body g.db ≡ c
      → submitted ≡ after_checks fl sha256 to_number config next_id g c
  unfolding create_video
  create_video-checks c e = ap (after_checks fl sha256 to_number config next_id g) e

  Queues-accepted :
      (a : Admitted)
      → any (has_id next_id) g.db.jobs ≡ false
      → Queues a
          (kick (record g { disk = stored a; db = inserted a }))
          (sent 200 (respond config (submitted_row a) (inserted a)))
  unfolding kick add_event
  Queues-accepted a n = record {
    reply = refl;
    rows = refl;
    row = get-inserted a n;
    input = read_file-write_file (input_path next_id a.image.extension) a.image.bytes g.disk;
    pods = refl;
    clock = refl;
    drawn = refl;
    waiting = refl;
    uploads = refl;
    woken = refl;
  }

  -- A request that is refused by a check leaves the gateway as it was.
  create_video-refused :
      (r : Reply VideoResponse)
      → admit fl sha256 to_number config body g.db ≡ stop r
      → submitted ≡ (g, r)
  unfolding after_checks
  create_video-refused r e = create_video-checks (stop r) e

  pub create_video-Queues :
      (a : Admitted)
      → admit fl sha256 to_number config body g.db ≡ pass a
      → any (has_id next_id) g.db.jobs ≡ false
      → Queues a submitted.0 submitted.1
  unfolding after_checks
  create_video-Queues a e n =
      subst (λ (p : Gateway × Reply VideoResponse). Queues a p.0 p.1)
        (sym (create_video-checks (pass a) e ∙ accepted a n)) (Queues-accepted a n)

  create-taken :
      any (has_id next_id) g.db.jobs ≡ true
      → (a : Admitted) → create (job_of a) (record g.db { drawn = g.db.drawn + 1 }) ≡ none
  unfolding create get
  create-taken t a =
      ap (λ b. if b then none else some (inserted a)) (find-present next_id g.db.jobs t)

  -- An id that a row has raises, with the input written over.
  create_video-taken :
      (a : Admitted)
      → admit fl sha256 to_number config body g.db ≡ pass a
      → any (has_id next_id) g.db.jobs ≡ true
      → submitted ≡ (record g { disk = stored a }, raised)
  unfolding after_checks insert write_input created
  create_video-taken a e t =
      create_video-checks (pass a) e
      ∙ ap (created fl sha256 to_number config next_id (record g { disk = stored a }))
          (create-taken t a)

  abbrev pub Refused : Type 0
  Refused =
      (r : Reply VideoResponse) × (admit fl sha256 to_number config body g.db ≡ stop r)
      × (submitted ≡ (g, r))

  abbrev pub Queued : Type 0
  Queued =
      (a : Admitted) × (admit fl sha256 to_number config body g.db ≡ pass a)
      × (any (has_id next_id) g.db.jobs ≡ false)
      × Queues a submitted.0 submitted.1

  abbrev pub Taken : Type 0
  Taken =
      (a : Admitted) × (any (has_id next_id) g.db.jobs ≡ true)
      × (submitted ≡ (record g { disk = stored a }, raised))

  by_checks :
      (c : Check Admitted)
      → admit fl sha256 to_number config body g.db ≡ c
      → Refused ⊎ (Queued ⊎ Taken)
  by_checks (stop r) e = inl (r, e, create_video-refused r e)
  by_checks (pass a) e = elim (Bool-cases (any (has_id next_id) g.db.jobs)) [
    | inl t ↦ inr (inr (a, t, create_video-taken a e t))
    | inr n ↦ inr (inl (a, e, n, create_video-Queues a e n))
  ]

  -- What a submission comes to: a check refuses it, and the gateway stays as it was; or it is admitted,
  -- and its id is new: the reply is 200 with the video as it stands, its queued row is behind the other
  -- rows, its input is read back from the disk, the pods are as they were, and every parked poll is
  -- woken; or its id is one that a row has: it raises, and only the disk may have changed.
  pub create_video-outcome : Refused ⊎ (Queued ⊎ Taken)
  create_video-outcome = by_checks (admit fl sha256 to_number config body g.db) refl
