-- ===== src/Indexer/Events/Runs.antt =====
-- The lines about runs that apps-indexer/src/parsers/run.events.ts reads, as they are printed.
use psybot_ai.Base.{◌≡◌, refl, ap, ◌∙◌, Option, none, some, List, [], ◌∷◌, ◌++◌, map, All}
use psybot_ai.Base.Text.{Text, codes}
use psybot_ai.Indexer.Lines.{
  ◌>>=◌, key_value, optional_value, first_match, not_empty, word, IsValue,
}
use psybot_ai.Indexer.Lines.Reading.{
  Stop, value-Stop, value-end, bind_some, first_match-here, events_of-first, events_of-second,
  first_match-status, optional_text, IsOptional,
}
use psybot_ai.Indexer.Events.{
  RunEvent, run_created, run_status, match_run_created, match_run_status, parse_run_events,
}

pub render_run : RunEvent → Text
render_run (run_created id m f) =
    codes "Program log: NUTTOO:RUN_CREATED runId="
    ++ (id ++ (codes " moduleId=" ++ (m ++ optional_text (codes " forkId=") f)))
render_run (run_status id st) =
    codes "Program log: NUTTOO:RUN_STATUS runId=" ++ (id ++ (codes " status=" ++ st))

abbrev pub IsRun : RunEvent → Type 0
IsRun (run_created id m f) = IsValue id × IsValue m × IsOptional f
IsRun (run_status id st) = IsValue id × IsValue st

tail-Stop : (f : Option Text) → Stop (optional_text (codes " forkId=") f)
tail-Stop none = tt
tail-Stop (some v) = refl

tail_read :
    (f : Option Text)
    → IsOptional f
    → (optional_value (codes "forkid=") (optional_text (codes " forkId=") f)).0 ≡ f
unfolding optional_value
tail_read none h = refl
tail_read (some v) h = rw (value-end v h) refl

created_read :
    (id m : Text) (f : Option Text)
    → IsValue id
    → IsValue m
    → IsOptional f
    → first_match match_run_created (render_run (run_created id m f)) ≡ some (run_created id m f)
unfolding first_match match_run_created render_run
created_read id m f hi hm hf =
    let tail = optional_text (codes " forkId=") f in
    let rest = codes " moduleId=" ++ (m ++ tail) in
    let g : Text → Text × Text → Option RunEvent =
      λ i y. some (run_created i y.0 (optional_value (codes "forkid=") y.1).0) in
    let k : Text × Text → Option RunEvent = λ x. key_value (codes "moduleid=") x.1 >>= g x.0 in
    first_match-here match_run_created b'N' (codes "UTTOO:RUN_CREATED runId=" ++ (id ++ rest))
      (run_created id m f)
      (bind_some (not_empty (word (id ++ rest))) (id, rest) k (value-Stop id rest hi refl)
        ∙ bind_some (not_empty (word (m ++ tail))) (m, tail) (g id)
            (value-Stop m tail hm (tail-Stop f))
        ∙ ap (λ o. some (run_created id m o)) (tail_read f hf))

status_read :
    (id st : Text)
    → IsValue id
    → IsValue st
    → first_match match_run_status (render_run (run_status id st)) ≡ some (run_status id st)
unfolding first_match match_run_status render_run
status_read id st hi hs =
    let tail = codes " status=" ++ st in
    let f : Text × Text → Option RunEvent =
      λ x. key_value (codes "status=") x.1 >>= λ y. some (run_status x.0 y.0) in
    first_match-here match_run_status b'N' (codes "UTTOO:RUN_STATUS runId=" ++ (id ++ tail))
      (run_status id st)
      (bind_some (not_empty (word (id ++ tail))) (id, tail) f (value-Stop id tail hi refl)
        ∙ bind_some (not_empty (word st)) (st, []) (λ (y : Text × Text). some (run_status id y.0))
            (value-end st hs))

status_not_created :
    (id st : Text)
    → IsValue id
    → IsValue st
    → first_match match_run_created (render_run (run_status id st)) ≡ none
unfolding first_match match_run_created render_run
status_not_created id st hi hs =
    first_match-status (codes "nuttoo:run_created") (codes "runid=") _ id st refl hi hs refl refl
      refl refl

-- The events of runs that are printed, one in a line, are read back; if no value is empty or holds
-- white space.
pub parse_run_events-render :
    (es : List RunEvent) → All IsRun es → parse_run_events (map render_run es) ≡ es
unfolding parse_run_events
parse_run_events-render [] h = refl
parse_run_events-render (run_created id m f ∷ es) ((hi, hm, hf), h) =
    events_of-first match_run_created match_run_status (render_run (run_created id m f))
      (map render_run es) (run_created id m f) es (created_read id m f hi hm hf)
      (parse_run_events-render es h)
parse_run_events-render (run_status id st ∷ es) ((hi, hs), h) =
    events_of-second match_run_created match_run_status (render_run (run_status id st))
      (map render_run es) (run_status id st) es (status_not_created id st hi hs)
      (status_read id st hi hs) (parse_run_events-render es h)
