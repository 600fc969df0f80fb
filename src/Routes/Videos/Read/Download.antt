-- ===== src/Routes/Videos/Read/Download.antt =====
-- gateway/src/routes/agent.ts and videos.ts: a download behind an upload.
use nidora_ai_inference.Base.{
  ℕ, ◌≡◌, refl, ap, ◌∙◌, true, false, Option, some, List, [], ◌∷◌, arith, length, decimal, ◌++◌,
  text, Str, str_eq_sound, find_sound,
}
use nidora_ai_inference.Domain.Types.{JobEventKind, Job, Artifact}
use nidora_ai_inference.Domain.Filenames.{is_safe_filename}
use nidora_ai_inference.Store.Db.{Db, has_id, get, add_event}
use nidora_ai_inference.Scheduler.Config.{Config}
use nidora_ai_inference.Artifacts.{
  read_file, write_file, store_body, artifact_path, stream_body, write_artifact, resolve_artifact,
}
use nidora_ai_inference.Artifacts.Files.{read_file-write_file}
use nidora_ai_inference.Routes.State.{Gateway, Upload, sent}
use nidora_ai_inference.Routes.Agent.Files.{
  Uploaded, mismatches, stored, after_write, finish_upload,
}
use nidora_ai_inference.Routes.Videos.Read.{Content, content_type, send_file, send_first, content}

abbrev pub logged : Upload → List ℕ → Db → Db
logged up body =
    add_event up.job.id JobEventKind.uploaded up.job.pod_id
      (some (decimal (length body) ++ text " bytes"))

abbrev pub receipt : (List ℕ → Str) → Upload → List ℕ → Uploaded
receipt sha256 up body = record {
  filename = up.filename;
  bytes = length body;
  sha256 = sha256 body;
}

pub finish_upload-stored :
    (sha256 : List ℕ → Str) (config : Config) (up : Upload) (chunks : List (List ℕ))
    (expected : Option Str) (body : List ℕ) (g : Gateway)
    → stream_body config.max_artifact_bytes [] chunks ≡ some body
    → mismatches expected (sha256 body) ≡ false
    → finish_upload sha256 config up chunks expected g ≡ (
      record g {
        disk = write_file (artifact_path up.job.id up.filename) body g.disk;
        db = logged up body g.db;
      },
      sent 200 (receipt sha256 up body),
    )
unfolding finish_upload after_write stored write_artifact store_body
finish_upload-stored sha256 config up chunks expected body g s m = rw (s, m) refl

abbrev pub download : Artifact → List ℕ → Content
download a body = record {
  media_type = content_type a;
  length = length body;
  filename = a.filename;
  sha256 = a.sha256;
  body = body;
}

pub content-found :
    (id : Str) (g : Gateway) (job : Job) (a : Artifact) (rest : List Artifact) (body : List ℕ)
    → get id g.db ≡ some job
    → job.artifacts ≡ a ∷ rest
    → is_safe_filename job.id ≡ true
    → is_safe_filename a.filename ≡ true
    → read_file (artifact_path job.id a.filename) g.disk ≡ some body
    → content id g ≡ sent 200 (download a body)
unfolding content send_first send_file resolve_artifact
content-found id g job a rest body e h i n r = ground (arith, e, h, i, n, r)

-- The upload of a body that comes in whole, against no hash or its own, ends in 200. In the state that
-- it leaves, a job in the table that lists an artifact of that name first is served with that body, if
-- its id and the name are safe ones. No other upload writes to the same name meanwhile.
pub finish_upload-served :
    (sha256 : List ℕ → Str) (config : Config) (up : Upload) (chunks : List (List ℕ))
    (expected : Option Str) (body : List ℕ) (g : Gateway) (job : Job) (rest : List Artifact)
    (a : Artifact)
    → stream_body config.max_artifact_bytes [] chunks ≡ some body
    → mismatches expected (sha256 body) ≡ false
    → is_safe_filename up.job.id ≡ true
    → is_safe_filename a.filename ≡ true
    → a.filename ≡ up.filename
    → get up.job.id g.db ≡ some job
    → job.artifacts ≡ a ∷ rest
    → let (g', answer) = finish_upload sha256 config up chunks expected g in
      (answer ≡ sent 200 (receipt sha256 up body))
      × (content up.job.id g' ≡ sent 200 (download a body))
unfolding get add_event
finish_upload-served sha256 config up chunks expected body g job rest a s m i n same e h =
    let own : job.id ≡ up.job.id =
      str_eq_sound job.id up.job.id (find_sound (has_id up.job.id) g.db.jobs job e) in
    rw (finish_upload-stored sha256 config up chunks expected body g s m) (
      refl,
      content-found up.job.id _ job a rest body e h (ap is_safe_filename own ∙ i) n
          (rw (own, same) (read_file-write_file (artifact_path up.job.id up.filename) body g.disk)),
    )
