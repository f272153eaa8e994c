-- ===== src/Agent/Recovery/Sources.antt =====
-- agent/remediation_recovery.py: _inspect_source, what stands at a path that a plan would back up. The answers
-- of the file system are a parameter.
use lsa.Base.{
  concat, ℕ, ◌*◌, String, List, [], ◌∷◌, Option, none, some, string_eq, nat_eq, ltb, if◌then◌else◌,
  pos,
}
use lsa.Json.{Fields, end, field, str, int}
use lsa.Library.{Library}
use lsa.Agent.Contract.{is_reviewed}

-- What reading a regular file gives, with the digest, size, mode, owner and group of an unchanged one.
pub data Reading : Type 0 where
  unsafe : String → Reading
  content : String → ℕ → String → ℕ → ℕ → Reading

pub data Stat : Type 0 where
  missing link directory special : Stat
  unreadable : String → Stat
  regular : ℕ → Reading → Stat

-- The answers of the file system; a path with a NUL character, at which `lstat` raises, is left out.
pub record Disk : Type 0 where
  pub stat : String → Stat

pub data Source : Type 0 where
  absent : Source
  blocked : String → Source
  regular_file : String → ℕ → String → ℕ → ℕ → Source

abbrev max_source_bytes : ℕ
max_source_bytes = 8 * 1024 * 1024

abbrev read_source : String → Reading → Source
read_source path (unsafe reason) =
    blocked (concat "Could not safely read " (concat path (concat ": " reason)))
read_source path (content digest size mode uid gid) = regular_file digest size mode uid gid

abbrev stat_source : String → Stat → Source
stat_source path missing = absent
stat_source path link = blocked (concat path " is a symbolic link")
stat_source path directory = blocked (concat path " is not a regular configuration file")
stat_source path special = blocked (concat path " is not a regular configuration file")
stat_source path (unreadable reason) =
    blocked (concat "Could not inspect " (concat path (concat ": " reason)))
stat_source path (regular size reading) =
    if ltb max_source_bytes size
    then blocked (concat path " exceeds the reviewed checkpoint size limit")
    else read_source path reading

-- All parts but the root and the name of the file itself.
abbrev without_last : List String → List String
without_last [] = []
without_last (part ∷ []) = []
without_last (part ∷ next ∷ parts) = part ∷ without_last (next ∷ parts)

abbrev parent_parts : List String → List String
parent_parts [] = []
parent_parts (root ∷ parts) = without_last parts

-- What is wrong with a directory on the way.
abbrev parent_detail : String → Stat → Option String
parent_detail current missing = some (concat "Parent directory " (concat current " is unavailable"))
parent_detail current (unreadable reason) =
    some (concat "Parent directory " (concat current " is unavailable"))
parent_detail current link =
    some (concat "Parent directory " (concat current " is a symbolic link"))
parent_detail current directory = none
parent_detail current special = some (concat "Parent path " (concat current " is not a directory"))
parent_detail current (regular size reading) =
    some (concat "Parent path " (concat current " is not a directory"))

-- `_safe_parent`, where `current` is followed by these parts; none if all are directories.
abbrev safe_parent : Disk → String → List String → Option String
safe_parent disk current [] = none
safe_parent disk current (part ∷ parts) =
    let later = safe_parent disk (concat current (concat "/" part)) parts in
    elim (parent_detail (concat current (concat "/" part))
      (disk.stat (concat current (concat "/" part)))) [ some detail ↦ some detail | none ↦ later ]

-- `_inspect_source`
abbrev pub inspect_source : Library → Disk → String → Source
inspect_source L disk path =
    if is_reviewed L path
    then (elim (safe_parent disk "" (parent_parts (L.posix_parts path))) [
      | some detail ↦ blocked detail
      | none ↦ stat_source path (disk.stat path)
    ])
    else blocked "recovery path is outside the reviewed /etc boundary"

-- The document of a source.
abbrev pub source_fields : String → Source → Fields
source_fields path absent = field "source_state" (str "absent") (
    field "status" (str "ready") (
      field "detail" (str (concat path " is absent; rollback must remove a newly created file"))
        end))
source_fields path (blocked detail) =
    field "source_state" (str "blocked")
      (field "status" (str "blocked") (field "detail" (str detail) end))
source_fields path (regular_file digest size mode uid gid) =
    field "source_state" (str "regular_file") (
      field "source_digest" (str (concat "sha256:" digest)) (
        field "size_bytes" (int (pos size)) (
          field "mode" (str mode) (
            field "uid" (int (pos uid)) (
              field "gid" (int (pos gid)) (
                field "status" (str "ready") (
                  field "detail"
                    (str (
                      concat path " can be checkpointed with content and metadata before mutation"))
                    end)))))))
