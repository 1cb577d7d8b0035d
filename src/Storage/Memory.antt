-- ===== src/Storage/Memory.antt =====
-- A database in memory, and one that cannot be written: instances for the tests.
use metaso_p2p.Prelude.{
  append-nil, ◌≡◌, refl, sym, ap, ◌∙◌, ◌&&◌, Option, none, some, List, [], ◌∷◌, false, inr,
}
use metaso_p2p.Prelude.Text.{Str}
use metaso_p2p.Prelude.Assoc.{Assoc, lookup, insert, without, lookup-insert, lookup-without}
use metaso_p2p.Storage.Keys.{at_least, below}
use metaso_p2p.Storage.Pebble.{
  Entry, Write, put, remove, Pebble, PebbleLaws, keep, as_fetch, written,
}

unfoldable pub apply : List Write → Assoc Str → Assoc Str
apply [] d = d
apply (put k v ∷ ws) d = apply ws (insert k v d)
apply (remove k ∷ ws) d = apply ws (without k d)

lookup-apply :
    (ws : List Write) (k : Str) (d : Assoc Str) → lookup k (apply ws d) ≡ written ws k (lookup k d)
unfolding apply written
lookup-apply [] k d = refl
lookup-apply (put j v ∷ ws) k d =
    lookup-apply ws k (insert j v d) ∙ ap (written ws k) (lookup-insert j k v d)
lookup-apply (remove j ∷ ws) k d =
    lookup-apply ws k (without j d) ∙ ap (written ws k) (lookup-without j k d)

abbrev kept : Option Str → Option Str → Assoc Str → List Entry
kept lower upper d = keep (λ e. at_least lower e.0 && below upper e.0) d

abbrev pub memory : Pebble (Assoc Str)
memory = record {
  fetch = λ k d. as_fetch (lookup k d);
  iterate = λ lower upper d. some (kept lower upper d);
  stopped = λ lower upper d. false;
  commit = λ durability ws d. some (apply ws d);
  entries = λ d. d;
}

elim_some : Str → Option (Assoc Str) → Option Str
elim_some k none = none
elim_some k (some e) = lookup k e

pub memory_laws : PebbleLaws memory
unfolding elim_some
memory_laws = record {
  fetch_lem = λ k d. inr refl;
  iterate_lem = λ lower upper d. inr (kept lower upper d, [], refl, append-nil _, inr refl);
  commit_lem = λ durability ws d e h k. sym (ap (elim_some k) h) ∙ lookup-apply ws k d;
}

abbrev pub read_only : Pebble (Assoc Str)
read_only = record {
  fetch = λ k d. as_fetch (lookup k d);
  iterate = λ lower upper d. some (kept lower upper d);
  stopped = λ lower upper d. false;
  commit = λ durability ws d. none;
  entries = λ d. d;
}

pub read_only_laws : PebbleLaws read_only
read_only_laws = record {
  fetch_lem = λ k d. inr refl;
  iterate_lem = λ lower upper d. inr (kept lower upper d, [], refl, append-nil _, inr refl);
  commit_lem = λ durability ws d e h k. cc;
}
