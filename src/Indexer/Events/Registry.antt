-- ===== src/Indexer/Events/Registry.antt =====
-- The lines about modules that apps-indexer/src/parsers/registry.events.ts reads, as they are printed.
use psybot_ai.Base.{◌≡◌, refl, ap, ◌∙◌, Option, none, some, List, [], ◌∷◌, ◌++◌, map, All}
use psybot_ai.Base.Text.{Text, codes}
use psybot_ai.Indexer.Lines.{
  ◌>>=◌, key_value, optional_value, first_match, not_empty, word, IsValue,
}
use psybot_ai.Indexer.Lines.Reading.{
  Stop, value-Stop, value-end, bind_some, first_match-here, events_of-first, events_of-second,
  first_match-status, optional_text, IsOptional,
}
use psybot_ai.Indexer.Events.{
  RegistryEvent, module_registered, module_status_changed, match_registered, match_module_status,
  parse_registry_events,
}

abbrev sha_text : Option Text → Text
sha_text sha = optional_text (codes " sha=") sha

abbrev version_text : Option Text → Option Text → Text
version_text version sha = optional_text (codes " version=") version ++ sha_text sha

abbrev name_text : Option Text → Option Text → Option Text → Text
name_text name version sha = optional_text (codes " name=") name ++ version_text version sha

pub render_registry : RegistryEvent → Text
render_registry (module_registered id name version sha) =
    codes "Program log: NUTTOO:MODULE_REGISTERED moduleId=" ++ (id ++ name_text name version sha)
render_registry (module_status_changed id st) =
    codes "Program log: NUTTOO:MODULE_STATUS moduleId=" ++ (id ++ (codes " status=" ++ st))

abbrev pub IsRegistry : RegistryEvent → Type 0
IsRegistry (module_registered id name version sha) =
    IsValue id × IsOptional name × IsOptional version × IsOptional sha
IsRegistry (module_status_changed id st) = IsValue id × IsValue st

sha_text-Stop : (sha : Option Text) → Stop (sha_text sha)
sha_text-Stop none = tt
sha_text-Stop (some v) = refl

version_text-Stop : (version sha : Option Text) → Stop (version_text version sha)
version_text-Stop none sha = sha_text-Stop sha
version_text-Stop (some v) sha = refl

name_text-Stop : (name version sha : Option Text) → Stop (name_text name version sha)
name_text-Stop none version sha = version_text-Stop version sha
name_text-Stop (some v) version sha = refl

abbrev found : Text → Option (Text × Text) → Option Text × Text
found s none = (none, s)
found s (some (v, rest)) = (some v, rest)

sha_read :
    (sha : Option Text) → IsOptional sha → (optional_value (codes "sha=") (sha_text sha)).0 ≡ sha
unfolding optional_value
sha_read none h = refl
sha_read (some v) h = rw (value-end v h) refl

version_read :
    (version sha : Option Text)
    → IsOptional version
    → optional_value (codes "version=") (version_text version sha) ≡ (version, sha_text sha)
unfolding optional_value
version_read none none h = refl
version_read none (some v) h = refl
version_read (some v) sha h =
    ap (found (version_text (some v) sha)) (value-Stop v (sha_text sha) h (sha_text-Stop sha))

name_read :
    (name version sha : Option Text)
    → IsOptional name
    → optional_value (codes "name=") (name_text name version sha) ≡ (name, version_text version sha)
unfolding optional_value
name_read none none none h = refl
name_read none none (some v) h = refl
name_read none (some v) sha h = refl
name_read (some v) version sha h =
    ap (found (name_text (some v) version sha))
      (value-Stop v (version_text version sha) h (version_text-Stop version sha))

created_read :
    (id : Text) (name version sha : Option Text)
    → IsValue id
    → IsOptional name
    → IsOptional version
    → IsOptional sha
    → first_match match_registered (render_registry (module_registered id name version sha))
      ≡ some (module_registered id name version sha)
unfolding first_match match_registered render_registry
created_read id name version sha hi hn hv hs =
    let tail = name_text name version sha in
    let after_version : Option Text → Option Text × Text → Option RegistryEvent =
      λ n w. some (module_registered id n w.0 (optional_value (codes "sha=") w.1).0) in
    let after_name : Option Text × Text → Option RegistryEvent =
      λ v. after_version v.0 (optional_value (codes "version=") v.1) in
    let k : Text × Text → Option RegistryEvent = λ x.
      let (n, v) = optional_value (codes "name=") x.1 in
      let (r, w) = optional_value (codes "version=") v in
      some (module_registered x.0 n r (optional_value (codes "sha=") w).0) in
    first_match-here match_registered b'N'
      (codes "UTTOO:MODULE_REGISTERED moduleId=" ++ (id ++ tail))
      (module_registered id name version sha)
      (bind_some (not_empty (word (id ++ tail))) (id, tail) k
          (value-Stop id tail hi (name_text-Stop name version sha))
        ∙ ap after_name (name_read name version sha hn)
        ∙ ap (after_version name) (version_read version sha hv)
        ∙ ap (λ o. some (module_registered id name version o)) (sha_read sha hs))

status_read :
    (id st : Text)
    → IsValue id
    → IsValue st
    → first_match match_module_status (render_registry (module_status_changed id st))
      ≡ some (module_status_changed id st)
unfolding first_match match_module_status render_registry
status_read id st hi hs =
    let tail = codes " status=" ++ st in
    let f : Text × Text → Option RegistryEvent =
      λ x. key_value (codes "status=") x.1 >>= λ y. some (module_status_changed x.0 y.0) in
    first_match-here match_module_status b'N'
      (codes "UTTOO:MODULE_STATUS moduleId=" ++ (id ++ tail)) (module_status_changed id st)
      (bind_some (not_empty (word (id ++ tail))) (id, tail) f (value-Stop id tail hi refl)
        ∙ bind_some (not_empty (word st)) (st, [])
            (λ (y : Text × Text). some (module_status_changed id y.0)) (value-end st hs))

status_not_created :
    (id st : Text)
    → IsValue id
    → IsValue st
    → first_match match_registered (render_registry (module_status_changed id st)) ≡ none
unfolding first_match match_registered render_registry
status_not_created id st hi hs =
    first_match-status (codes "nuttoo:module_registered") (codes "moduleid=") _ id st refl hi hs
      refl refl refl refl

-- The events of modules that are printed, one in a line, are read back, with the optional values
-- that each of them has; if no value is empty or holds white space.
pub parse_registry_events-render :
    (es : List RegistryEvent)
    → All IsRegistry es
    → parse_registry_events (map render_registry es) ≡ es
unfolding parse_registry_events
parse_registry_events-render [] h = refl
parse_registry_events-render (module_registered id n v sha ∷ es) ((hi, hn, hv, hs), h) =
    events_of-first match_registered match_module_status
      (render_registry (module_registered id n v sha)) (map render_registry es)
      (module_registered id n v sha) es (created_read id n v sha hi hn hv hs)
      (parse_registry_events-render es h)
parse_registry_events-render (module_status_changed id st ∷ es) ((hi, hs), h) =
    events_of-second match_registered match_module_status
      (render_registry (module_status_changed id st)) (map render_registry es)
      (module_status_changed id st) es (status_not_created id st hi hs) (status_read id st hi hs)
      (parse_registry_events-render es h)
