-- ===== src/Indexer/Events/Forks.antt =====
-- The lines about forks that apps-indexer/src/parsers/fork.events.ts reads, as they are printed.
use psybot_ai.Base.{◌≡◌, refl, ap, ◌∙◌, Option, none, some, List, [], ◌∷◌, ◌++◌, map, All}
use psybot_ai.Base.Text.{Text, codes}
use psybot_ai.Indexer.Lines.{
  ◌>>=◌, key_value, optional_value, first_match, not_empty, word, IsValue,
}
use psybot_ai.Indexer.Lines.Reading.{
  Stop, value-Stop, value-end, bind_some, first_match-here, events_of-first, events_of-second,
  first_match-status, optional_text, IsOptional,
}
use psybot_ai.Indexer.Events.{
  ForkEvent, fork_created, fork_status_changed, match_fork_created, match_fork_status,
  parse_fork_events,
}

pub render_fork : ForkEvent → Text
render_fork (fork_created id m f) =
    codes "Program log: NUTTOO:FORK_CREATED forkId="
    ++ (id ++ (codes " moduleId=" ++ (m ++ optional_text (codes " parentForkId=") f)))
render_fork (fork_status_changed id st) =
    codes "Program log: NUTTOO:FORK_STATUS forkId=" ++ (id ++ (codes " status=" ++ st))

abbrev pub IsFork : ForkEvent → Type 0
IsFork (fork_created id m f) = IsValue id × IsValue m × IsOptional f
IsFork (fork_status_changed id st) = IsValue id × IsValue st

tail-Stop : (f : Option Text) → Stop (optional_text (codes " parentForkId=") f)
tail-Stop none = tt
tail-Stop (some v) = refl

tail_read :
    (f : Option Text)
    → IsOptional f
    → (optional_value (codes "parentforkid=") (optional_text (codes " parentForkId=") f)).0 ≡ f
unfolding optional_value
tail_read none h = refl
tail_read (some v) h = rw (value-end v h) refl

created_read :
    (id m : Text) (f : Option Text)
    → IsValue id
    → IsValue m
    → IsOptional f
    → first_match match_fork_created (render_fork (fork_created id m f))
      ≡ some (fork_created id m f)
unfolding first_match match_fork_created render_fork
created_read id m f hi hm hf =
    let tail = optional_text (codes " parentForkId=") f in
    let rest = codes " moduleId=" ++ (m ++ tail) in
    let g : Text → Text × Text → Option ForkEvent =
      λ i y. some (fork_created i y.0 (optional_value (codes "parentforkid=") y.1).0) in
    let k : Text × Text → Option ForkEvent = λ x. key_value (codes "moduleid=") x.1 >>= g x.0 in
    first_match-here match_fork_created b'N' (codes "UTTOO:FORK_CREATED forkId=" ++ (id ++ rest))
      (fork_created id m f)
      (bind_some (not_empty (word (id ++ rest))) (id, rest) k (value-Stop id rest hi refl)
        ∙ bind_some (not_empty (word (m ++ tail))) (m, tail) (g id)
            (value-Stop m tail hm (tail-Stop f))
        ∙ ap (λ o. some (fork_created id m o)) (tail_read f hf))

status_read :
    (id st : Text)
    → IsValue id
    → IsValue st
    → first_match match_fork_status (render_fork (fork_status_changed id st))
      ≡ some (fork_status_changed id st)
unfolding first_match match_fork_status render_fork
status_read id st hi hs =
    let tail = codes " status=" ++ st in
    let f : Text × Text → Option ForkEvent =
      λ x. key_value (codes "status=") x.1 >>= λ y. some (fork_status_changed x.0 y.0) in
    first_match-here match_fork_status b'N' (codes "UTTOO:FORK_STATUS forkId=" ++ (id ++ tail))
      (fork_status_changed id st)
      (bind_some (not_empty (word (id ++ tail))) (id, tail) f (value-Stop id tail hi refl)
        ∙ bind_some (not_empty (word st)) (st, [])
            (λ (y : Text × Text). some (fork_status_changed id y.0)) (value-end st hs))

status_not_created :
    (id st : Text)
    → IsValue id
    → IsValue st
    → first_match match_fork_created (render_fork (fork_status_changed id st)) ≡ none
unfolding first_match match_fork_created render_fork
status_not_created id st hi hs =
    first_match-status (codes "nuttoo:fork_created") (codes "forkid=") _ id st refl hi hs refl refl
      refl refl

-- The events of forks that are printed, one in a line, are read back.
pub parse_fork_events-render :
    (es : List ForkEvent) → All IsFork es → parse_fork_events (map render_fork es) ≡ es
unfolding parse_fork_events
parse_fork_events-render [] h = refl
parse_fork_events-render (fork_created id m f ∷ es) ((hi, hm, hf), h) =
    events_of-first match_fork_created match_fork_status (render_fork (fork_created id m f))
      (map render_fork es) (fork_created id m f) es (created_read id m f hi hm hf)
      (parse_fork_events-render es h)
parse_fork_events-render (fork_status_changed id st ∷ es) ((hi, hs), h) =
    events_of-second match_fork_created match_fork_status (render_fork (fork_status_changed id st))
      (map render_fork es) (fork_status_changed id st) es (status_not_created id st hi hs)
      (status_read id st hi hs) (parse_fork_events-render es h)
