-- ===== src/Sub/Load.antt =====
-- internal/generator/sub/input.go: reading the input files of a directory. The disk and the decoders
-- of encoding/json and yaml.v3 are parameters; a decoder that finds an unknown field gives an error.
use proxystack_go.Prelude.{
  Text, Text_eq, codes, text_lt, is_empty, if◌then◌else◌, Bool, ◌||◌, ◌==◌, contains, List, [], ◌∷◌,
  ◌++◌, none, some, Answer, ok, error, ◌>>=◌, traverse,
}
use proxystack_go.Prelude.Sort.{sort_by}
use proxystack_go.Prelude.Paths.{base_name, extension, join_path}
use proxystack_go.Sub.{
  input_schema_name, Input, InputFile, Access, Index, resolve_external_host_default, validate_input,
}
use proxystack_go.Sub.Merge.{merge_inputs}

pub record DirEntry : Type 0 where
  pub name : Text
  pub is_dir : Bool

pub record Disk : Type 0 where
  pub read_dir : Text → Answer (List DirEntry)
  pub read_file : Text → Answer Text

pub record Decoders : Type 0 where
  pub json : Text → Answer Input
  pub yaml : Text → Answer Input

-- supportedInputExtensions
unfoldable pub supported_extension : Text → Bool
supported_extension ext = contains (codes ".yaml" ∷ codes ".yml" ∷ codes ".json" ∷ []) ext

-- The loop of ScanInputFiles.
unfoldable pub input_paths : Text → List DirEntry → List Text
input_paths directory [] = []
input_paths directory (entry ∷ entries) =
    let rest = input_paths directory entries in
    if entry.is_dir
    then rest
    else if supported_extension (extension entry.name)
    then join_path directory entry.name ∷ rest
    else rest

unfoldable pub with_schema : Input → Input
with_schema i = record i {
  input_schema = if is_empty i.input_schema then input_schema_name else i.input_schema;
}

unfoldable pub invalid_input : Text → Text → Text
invalid_input name e = codes "invalid subscription input " ++ name ++ codes ": " ++ e

-- The checks of LoadInputContent behind the decoder.
unfoldable pub checked_input : Text → Input → Answer Input
checked_input name i =
    let input = resolve_external_host_default (with_schema i) in
    elim (validate_input input) [ some e ↦ error (invalid_input name e) | none ↦ ok input ]

unfoldable pub decoded_input : Text → Answer Input → Answer Input
decoded_input name (error e) = error (invalid_input name e)
decoded_input name (ok input) = checked_input name input

module _ (disk : Disk) (decoders : Decoders) where
  unfoldable pub scan_input_files : Text → Answer (List Text)
  scan_input_files directory = elim (disk.read_dir directory) [
    | error e ↦
        error
          (codes "input directory could not be read: " ++ directory ++ codes " (" ++ e ++ codes ")")
    | ok entries ↦ ok (sort_by text_lt (input_paths directory entries))
  ]

  unfoldable pub load_input_content : Text → Text → Answer Input
  load_input_content name content =
      if extension name == codes ".json"
      then decoded_input name (decoders.json content)
      else if extension name == codes ".yaml" || extension name == codes ".yml"
      then decoded_input name (decoders.yaml content)
      else error (codes "unsupported input extension: " ++ name)

  unfoldable pub load_input_file : Text → Answer Input
  load_input_file path =
      if supported_extension (extension path)
      then (elim (disk.read_file path) [
        | error e ↦
            error (
              codes "subscription input could not be read: "
              ++ path
              ++ codes " ("
              ++ e
              ++ codes ")")
        | ok content ↦ load_input_content (base_name path) content
      ])
      else error (codes "unsupported input extension: " ++ base_name path)

  unfoldable pub load_input : Text → Answer InputFile
  load_input path =
      load_input_file path >>= λ input. ok (record { name = base_name path; input = input })

  unfoldable pub load_inputs : Text → Answer (List InputFile)
  load_inputs directory = scan_input_files directory >>= λ paths. traverse load_input paths

  unfoldable pub merge_input_files : Text → Access → Text → Answer Index
  merge_input_files directory access generated_at =
      load_inputs directory >>= λ files. merge_inputs files access generated_at
