-- ===== src/Artifacts.antt =====
-- gateway/src/artifacts/store.ts, class ArtifactStore, over a disk that is the list of its files. A
-- path is `<dataDir>/<area>/<jobId>/<name>`; directories exist as soon as a file needs them, and
-- the part file of an upload is not visible under its final name.
pub mod Files
use mathlib.Core.Option
use nidora_ai_inference.Base.{
  ℕ, Bool, true, false, ◌&&◌, Option, none, some, List, [], ◌∷◌, ◌++◌, ltb, if◌then◌else◌, length,
  Str, text, str_eq, delete_where, find,
}
use nidora_ai_inference.Domain.Types.{Area, inputs, artifacts, FilePath}
use nidora_ai_inference.Domain.Filenames.{is_safe_filename}

pub record StoredFile : Type 0 where
  pub path : FilePath
  pub content : List ℕ

abbrev pub Disk : Type 0
Disk = List StoredFile

abbrev pub same_area : Area → Area → Bool
same_area inputs inputs = true
same_area inputs artifacts = false
same_area artifacts inputs = false
same_area artifacts artifacts = true

abbrev pub same_path : FilePath → FilePath → Bool
same_path p q = same_area p.area q.area && (str_eq p.job_id q.job_id && str_eq p.name q.name)

abbrev pub at_path : FilePath → StoredFile → Bool
at_path path f = same_path f.path path

unfoldable pub read_file : FilePath → Disk → Option (List ℕ)
read_file path disk = Option.map (λ f. f.content) (find (at_path path) disk)

-- `writeFile`, and a rename onto the path: an older file of that name is replaced.
unfoldable pub write_file : FilePath → List ℕ → Disk → Disk
write_file path content disk =
    record { path = path; content = content } ∷ delete_where (at_path path) disk

unfoldable pub input_path : Str → Str → FilePath
input_path job_id extension = record {
  area = inputs;
  job_id = job_id;
  name = text "input." ++ extension;
}

unfoldable pub write_input : Str → Str → List ℕ → Disk → Disk × FilePath
unfolding input_path write_file
write_input job_id extension bytes disk =
    let path = input_path job_id extension in (write_file path bytes disk, path)

-- The chunks of a stream put together; `none` as soon as they are more than `max_bytes`.
unfoldable pub stream_body : ℕ → List ℕ → List (List ℕ) → Option (List ℕ)
stream_body max_bytes seen [] = some seen
stream_body max_bytes seen (chunk ∷ chunks) =
    let rest = stream_body max_bytes (seen ++ chunk) chunks in
    if ltb max_bytes (length (seen ++ chunk)) then none else rest

abbrev pub artifact_path : Str → Str → FilePath
artifact_path job_id filename = record { area = artifacts; job_id = job_id; name = filename }

unfoldable pub store_body : Str → Str → Disk → Option (List ℕ) → Disk × Option (List ℕ)
unfolding write_file
store_body job_id filename disk none = (disk, none)
store_body job_id filename disk (some body) =
    (write_file (artifact_path job_id filename) body disk, some body)

-- The bytes that were stored, or `none` for `ArtifactTooLarge`, which stores nothing. The part file, its
-- stream and its rename are one write: uploads of one name that overlap, which share that file, are left
-- out.
unfoldable pub write_artifact : Str → Str → List (List ℕ) → ℕ → Disk → Disk × Option (List ℕ)
unfolding store_body stream_body
write_artifact job_id filename chunks max_bytes disk =
    store_body job_id filename disk (stream_body max_bytes [] chunks)

-- Both names are one plain segment, so that `path.resolve` has nothing to collapse and the prefix
-- check that follows it in the source passes.
unfoldable pub resolve_artifact : Str → Str → Option FilePath
resolve_artifact job_id filename =
    if is_safe_filename job_id && is_safe_filename filename
    then some (artifact_path job_id filename)
    else none

-- The size of the file, or null.
unfoldable pub exists : FilePath → Disk → Option ℕ
unfolding read_file
exists path disk = Option.map length (read_file path disk)

unfoldable pub remove_job : Str → Disk → Disk
remove_job job_id = delete_where (λ f. str_eq f.path.job_id job_id)

unfoldable pub remove_input : Str → Disk → Disk
remove_input job_id =
    delete_where (λ f. same_area f.path.area inputs && str_eq f.path.job_id job_id)
