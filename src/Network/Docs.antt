-- ===== src/Network/Docs.antt =====
-- `readProjectDocs`: a file or a directory of a repository, from the contents service of GitHub.
use one_crew.Common.{
  ℕ, ◌-◌, String, Bool, false, not, ◌&&◌, Option, none, some, List, [], ◌∷◌, keep, map, take,
  length, ltb, str_eq, ◌==◌, if◌then◌else◌,
}
use one_crew.Common.Texts.{◌&◌, join_with, Attempt, returns, throws}
use one_crew.Common.Split.{split_at}
use one_crew.Network.Bytes.{slice_to_byte_limit}

abbrev pub max_file_bytes : ℕ
max_file_bytes = 65_536

-- `ReadProjectDocsInput`
pub record DocsInput : Type 0 where
  pub owner : String
  pub repo : String
  pub path : String
  pub ref : Option String

pub data EntryType : Type 0 where
  a_file a_dir a_symlink a_submodule : EntryType

pub record DirEntry : Type 0 where
  pub name : String
  pub kind : EntryType
  pub size : ℕ

pub record FileResponse : Type 0 where
  pub content : String
  pub size : ℕ
  pub path : String

-- The body of a response: a listing, a file with its content, or anything else, with its `type`.
pub data Body : Type 0 where
  listing : List DirEntry → Body
  file : FileResponse → Body
  unsupported : Option String → Body

pub record Reply : Type 0 where
  pub status : ℕ
  pub is_ok : Bool
  pub rate_remaining : Option String
  pub body : Attempt Body

abbrev is_kept : String → Bool
is_kept seg = not (str_eq seg "") && not (str_eq seg ".") && not (str_eq seg "..")

-- `normalizePath`
unfoldable pub normalize_path : String → String
normalize_path path = join_with "/" (keep is_kept (split_at b'/' path))

-- Texts and bytes of JavaScript: `encodeURIComponent`, the text of a number, base64 and UTF-8.
pub record Encoding : Type 0 where
  pub uri : String → String
  pub decimal : ℕ → String
  pub from_base64 : String → List ℕ
  pub from_utf8 : List ℕ → String
  pub to_utf8 : String → List ℕ

-- `input.ref ? … : ''`
abbrev if_ref : Option String → (String → String) → String
if_ref none f = ""
if_ref (some ref) f = if str_eq ref "" then "" else f ref

module _ (enc : Encoding) where
  open enc use {uri, decimal, from_base64, from_utf8, to_utf8}

  unfoldable pub contents_url : DocsInput → String
  unfolding normalize_path
  contents_url i =
      "https://api.github.com/repos/"
      & uri i.owner
      & "/"
      & uri i.repo
      & "/contents/"
      & normalize_path i.path
      & if_ref i.ref (λ ref. "?ref=" & uri ref)

  abbrev marker : EntryType → String
  marker a_dir = "📁"
  marker _ = "📄"

  abbrev size_note : DirEntry → String
  size_note e = elim e.kind [ a_file ↦ " (" & decimal e.size & " bytes)" | _ ↦ "" ]

  abbrev entry_line : DirEntry → String
  entry_line e = "- " & marker e.kind & " " & e.name & size_note e

  abbrev more_note : ℕ → String
  more_note n =
      if ltb 200 n then "\n\n…and " & decimal (n - 200) & " more entries (refine the path)." else ""

  -- `formatDirectory`
  unfoldable pub format_directory : DocsInput → List DirEntry → String
  unfolding normalize_path
  format_directory i [] =
      "# Directory: "
      & i.owner
      & "/"
      & i.repo
      & "/"
      & normalize_path i.path
      & "\n\n(empty directory)"
  format_directory i (e ∷ es) =
      "# Directory: "
      & i.owner
      & "/"
      & i.repo
      & "/"
      & normalize_path i.path
      & "\n\n"
      & join_with "\n" (map entry_line (take 200 (e ∷ es)))
      & more_note (length (e ∷ es))

  -- `formatFile`
  unfoldable pub format_file : DocsInput → FileResponse → String
  unfolding slice_to_byte_limit
  format_file i data' =
      let header =
        "# File: "
        & i.owner
        & "/"
        & i.repo
        & "/"
        & data'.path
        & if_ref i.ref (λ ref. " @ " & ref) in
      let decoded = from_utf8 (from_base64 data'.content) in
      if ltb max_file_bytes (length (to_utf8 decoded))
      then join_with "\n" (
          header
          ∷ ("(truncated to "
              & decimal max_file_bytes
              & " bytes — full file is "
              & decimal data'.size
              & " bytes;")
          ∷ " request a more specific path or a sub-range if you need the rest)"
          ∷ ""
          ∷ "```"
          ∷ from_utf8 (slice_to_byte_limit (to_utf8 decoded) max_file_bytes)
          ∷ "```"
          ∷ [])
      else join_with "\n" (header ∷ "" ∷ "```" ∷ decoded ∷ "```" ∷ [])

  abbrev is_spent : Option String → Bool
  is_spent none = false
  is_spent (some n) = str_eq n "0"

  abbrev type_or_unknown : Option String → String
  type_or_unknown none = "unknown"
  type_or_unknown (some t) = t

  abbrev shown : DocsInput → Attempt Body → Attempt String
  shown i (throws m) = throws m
  shown i (returns (listing es)) = returns (format_directory i es)
  shown i (returns (file f)) = returns (format_file i f)
  shown i (returns (unsupported kind)) = throws (
      "Unsupported content type at "
      & normalize_path i.path
      & " (got \""
      & type_or_unknown kind
      & "\").")

  abbrev answered : DocsInput → Attempt Reply → Attempt String
  answered i (throws m) = throws m
  answered i (returns r) =
      if r.status == 404
      then throws (
          "Not found: "
          & i.owner
          & "/"
          & i.repo
          & "/"
          & normalize_path i.path
          & if_ref i.ref (λ ref. " @ " & ref)
          & ". Check the path and ref.")
      else if r.status == 403
      then if is_spent r.rate_remaining
        then throws
            "GitHub API rate limit exceeded. Set GITHUB_TOKEN for a higher limit, or retry later."
        else throws (
            "Access denied to " & i.owner & "/" & i.repo
            & ". The repo may be private; set GITHUB_TOKEN with access.")
      else if r.is_ok
      then shown i r.body
      else throws ("GitHub HTTP " & decimal r.status)

  unfoldable pub read_project_docs : (String → Attempt Reply) → DocsInput → Attempt String
  unfolding contents_url format_directory format_file
  read_project_docs fetch i = answered i (fetch (contents_url i))
