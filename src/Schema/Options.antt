-- ===== src/Schema/Options.antt =====
-- pkg/apiserver/schema/options.go: where the pruning algorithm records the fields it removes.
use apiextensions_apiserver.Prelude.{
  ℕ, String, Bool, List, [], ◌∷◌, ◌++◌, length, take, is_empty, itoa, join, if◌then◌else◌,
}

pub record UnknownFieldPathOptions : Type 0 where
  pub track_unknown_field_paths : Bool
  pub parent_path : List String
  pub unknown_field_paths : List String

-- The path segments that AppendKey adds behind `path`.
abbrev pub key_segments : List String → String → List String
key_segments path key = if is_empty path then key ∷ [] else "." ∷ key ∷ []

abbrev pub index_segments : ℕ → List String
index_segments index = "[" ∷ itoa index ∷ "]" ∷ []

unfoldable pub append_key : String → UnknownFieldPathOptions → UnknownFieldPathOptions
append_key key o =
    if o.track_unknown_field_paths
    then record o { parent_path = o.parent_path ++ key_segments o.parent_path key }
    else o

unfoldable pub append_index : ℕ → UnknownFieldPathOptions → UnknownFieldPathOptions
append_index index o =
    if o.track_unknown_field_paths
    then record o { parent_path = o.parent_path ++ index_segments index }
    else o

-- `opts.ParentPath = opts.ParentPath[:origPathLen]`
unfoldable pub cut_back : ℕ → UnknownFieldPathOptions → UnknownFieldPathOptions
cut_back n o = record o { parent_path = take n o.parent_path }

unfoldable pub record_unknown_field : String → UnknownFieldPathOptions → UnknownFieldPathOptions
unfolding append_key cut_back
record_unknown_field field o =
    let o' = append_key field o in
    if o.track_unknown_field_paths
    then cut_back (length o.parent_path)
        (record o' { unknown_field_paths = o'.unknown_field_paths ++ join o'.parent_path ∷ [] })
    else o
