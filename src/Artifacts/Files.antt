-- ===== src/Artifacts/Files.antt =====
-- gateway/src/artifacts/store.ts: what is read from a disk behind a write.
use mathlib.Core.Option
use nidora_ai_inference.Base.{
  ℕ, ◌≡◌, refl, ap, true, false, some, List, [], ◌∷◌, arith, Str, str_eq_refl, find, delete_where,
}
use nidora_ai_inference.Domain.Types.{FilePath, Area, inputs, artifacts}
use nidora_ai_inference.Artifacts.{
  StoredFile, Disk, same_area, same_path, at_path, read_file, write_file, artifact_path,
  remove_input,
}

same_area_refl : (a : Area) → same_area a a ≡ true
same_area_refl inputs = refl
same_area_refl artifacts = refl

same_path_refl : (path : FilePath) → same_path path path ≡ true
same_path_refl path =
    ground (arith, same_area_refl path.area, str_eq_refl path.job_id, str_eq_refl path.name)

pub read_file-write_file :
    (path : FilePath) (bytes : List ℕ) (disk : Disk)
    → read_file path (write_file path bytes disk) ≡ some bytes
unfolding read_file write_file find
read_file-write_file path bytes disk = ground (arith, same_path_refl path)

area_apart : (a : Area) → same_area a inputs ≡ true → same_area a artifacts ≡ false
area_apart inputs e = refl
area_apart artifacts e = cc

find-remove_input :
    (job_id id name : Str) (disk : Disk)
    → find (at_path (artifact_path id name)) (remove_input job_id disk)
      ≡ find (at_path (artifact_path id name)) disk
unfolding remove_input find delete_where
find-remove_input job_id id name [] = refl
find-remove_input job_id id name (f ∷ disk) =
    ground (arith, area_apart f.path.area, find-remove_input job_id id name disk)

-- The removal of a job's input leaves the media.
pub read_file-remove_input :
    (job_id id name : Str) (disk : Disk)
    → read_file (artifact_path id name) (remove_input job_id disk)
      ≡ read_file (artifact_path id name) disk
unfolding read_file
read_file-remove_input job_id id name disk =
    ap (Option.map (λ (f : StoredFile). f.content)) (find-remove_input job_id id name disk)
