-- ===== src/Scripts/ExportIdls/Index.antt =====
-- scripts/solana/export-idls.ts: the two index files. `JSON.stringify`, on a value with an
-- indentation and on a text, is a parameter.
use psybot_ai.Base.{ℕ, Bool, ◌&&◌, ◌||◌, List, [], ◌∷◌, ◌++◌, map, if◌then◌else◌, leb, ◌==◌}
use psybot_ai.Base.Text.{Text, codes}
use psybot_ai.Base.Json.{Json, str, arr, obj, end, field, list_items}
use psybot_ai.Scripts.EnvFile.{join_lines}

pub record IdlMeta : Type 0 where
  pub name : Text
  pub idl_file : Text
  pub sha256 : Text

-- `/[a-zA-Z0-9_]/`
abbrev is_word : ℕ → Bool
is_word c = leb 97 c && leb c 122 || leb 65 c && leb c 90 || leb 48 c && leb c 57 || c == b'_'

-- `m.name.replace(/[^a-zA-Z0-9_]/g, "_")`
unfoldable pub var_name : Text → Text
var_name name = map (λ c. if is_word c then c else b'_') name

meta_json : IdlMeta → Json
meta_json i = obj (
    field (codes "name") (str i.name)
      (field (codes "idlFile") (str i.idl_file) (field (codes "sha256") (str i.sha256) end)))

unfoldable pub index_json : Text → List IdlMeta → Json
unfolding meta_json list_items
index_json date metas = obj (
    field (codes "generatedAt") (str date)
      (field (codes "idls") (arr (list_items (map meta_json metas))) end))

import_line : (Text → Text) → IdlMeta → Text
unfolding var_name
import_line basename i =
    codes "import "
    ++ (var_name i.name
        ++ (codes " from \"./" ++ (basename i.idl_file ++ codes "\" assert { type: \"json\" };")))

entry_line : (Text → Text) → IdlMeta → Text
unfolding var_name
entry_line quote i = codes "  " ++ (quote i.name ++ (codes ": " ++ (var_name i.name ++ codes ",")))

unfoldable pub index_ts : (Text → Text) → (Text → Text) → List IdlMeta → Text
unfolding join_lines import_line entry_line
index_ts basename quote metas =
    join_lines (
      codes "/* eslint-disable */"
      ∷ codes "// Auto-generated by scripts/solana/export-idls.ts"
      ∷ []
      ∷ (map (import_line basename) metas
          ++ ([]
              ∷ codes "export const idls = {"
              ∷ (map (entry_line quote) metas
                  ++ (codes "} as const;"
                      ∷ []
                      ∷ codes "export type IdlName = keyof typeof idls;"
                      ∷ []
                      ∷ [])))))
    ++ b'\n' ∷ []
