-- ===== src/Loadgen/Clients/Settling.antt =====
-- internal/loadgen/loadgen.go: where a client is once it has settled.
use ws_chat.Base.{
  ◌≡◌, ◌≢◌, refl, true, false, Option, none, some, List, [], ◌∷◌, ◌++◌, if◌then◌else◌, if_rule,
  Text, ◌==◌, text_keyed, same_text, same_text_iff, arith,
}
use ws_chat.Proto.Command.{Command, verb_join, verb_part}
use ws_chat.Loadgen.Clients.{wait_join, command_in, Sent, goes, Settled, part_default, do_settle}

-- The rooms that somebody is in who leaves one.
abbrev pub without : Text → List Text → List Text
without name [] = []
without name (r ∷ rs) = if r == name then without name rs else r ∷ without name rs

-- What a JOIN and a PART do to the rooms that the server has somebody in.
abbrev pub obeyed : Command → List Text → List Text
obeyed cmd rooms =
    if cmd.verb == verb_join
    then rooms ++ cmd.channel ∷ []
    else (if cmd.verb == verb_part then without cmd.channel rooms else rooms)

abbrev pub obeyed_all : List Command → List Text → List Text
obeyed_all [] rooms = rooms
obeyed_all (c ∷ cs) rooms = obeyed_all cs (obeyed c rooms)

moved_rooms :
    (name def : Text)
    → name ≢ def
    → obeyed_all (command_in verb_join name [] ∷ command_in verb_part def [] ∷ []) (def ∷ [])
      ≡ name ∷ []
unfolding same_text
moved_rooms name def apart = ground (arith, same_text_iff def def, same_text_iff name def)

-- The commands that got out.
abbrev pub sent_of : List Command → List Sent → List Command
sent_of [] xs = []
sent_of (c ∷ cs) [] = []
sent_of (c ∷ cs) (x ∷ xs) = if goes x then c ∷ sent_of cs xs else sent_of cs xs

-- The channel of a client, and the rooms that the commands it got out leave it in.
abbrev pub Arrived : Text → Text → Settled → Type 0
Arrived name def done =
    (done.channel ≡ (if name == [] then def else name))
    × (obeyed_all (sent_of done.asked done.tried) (def ∷ []) ≡ done.channel ∷ [])

moved-Arrived :
    (joining parting : Sent) (name def : Text) (there : Option Text)
    → name ≢ def
    → name == [] ≡ false
    → goes joining ≡ true
    → (part_default joining parting name def there).ok ≡ true
    → Arrived name def (part_default joining parting name def there)
moved-Arrived joining parting name def none apart named went_out ok = absurd (cc)
moved-Arrived joining parting name def (some got) apart named went_out ok =
    rw (named, went_out, ok) (refl, moved_rooms name def apart)

-- A client that the server has put into the room `def` alone, and that settles, with whatever JOINs
-- reach it and whatever comes of its commands: its channel is the one it was given, or `def` if it
-- was given none, and what it got out leaves it in that channel and in no other. The channel that it
-- was given is not `def`.
pub do_settle-Arrived :
    (joining parting : Sent) (name def : Text) (rest : List Text)
    → name ≢ def
    → (do_settle joining parting name (def ∷ rest)).ok ≡ true
    → Arrived name def (do_settle joining parting name (def ∷ rest))
unfolding do_settle wait_join same_text
do_settle-Arrived joining parting name def rest apart ok =
    if_rule (λ (done : Settled). done.ok ≡ true → Arrived name def done) (name == [])
      (λ empty e. rw empty (refl, refl))
      (λ named.
        if_rule (λ (done : Settled). done.ok ≡ true → Arrived name def done) (goes joining)
          (λ out. moved-Arrived joining parting name def (wait_join name rest).0 apart named out)
          (λ _ e. absurd (cc)))
      ok
