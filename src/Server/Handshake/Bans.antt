-- ===== src/Server/Handshake/Bans.antt =====
-- conn.go: who gets through the handshake.
use ws_chat.Base.{
  ℕ, ◌≡◌, ◌≢◌, ◌↔◌, inl, inr, refl, ap, sym, ◌∙◌, true, Option, none, some, [], if_rule, Text,
  bytes, ◌==◌, text_keyed,
}
use ws_chat.Hook.{Identity, Limits, key, anonymous, apply_chatter}
use ws_chat.Hook.Keys.{key_iff}
use ws_chat.Moderation.{global, banned}
use ws_chat.Moderation.Answers.{InForce, active_iff}
use ws_chat.Proto.Codec.{Codec, by_name}
use ws_chat.Server.Sanctions.{
  Found, chatter, no_chatter, broken, applied, known_as, identified, identify,
}
use ws_chat.Server.Handshake.{
  Login, someone, Upgrade, upgraded, Outcome, refused, Door, is_barred, on_upgrade, rejected,
  negotiated, greet, handle_ws,
}

-- No directory changes an ID.
applied-id : (found : Found) (who : Identity) → (applied found who).id ≡ who.id
unfolding apply_chatter
applied-id (chatter c) who = refl
applied-id no_chatter who = refl
applied-id broken who = refl

known_as-id : (dir : Option (Text → Found)) (who : Identity) → (known_as dir who).id ≡ who.id
known_as-id none who = refl
known_as-id (some f) who =
    if_rule (λ (i : Identity). i.id ≡ who.id) (anonymous who) (λ _. refl)
      (λ _. applied-id (f who.id) who)

identified-id :
    (dir : Option (Text → Found)) (who : Identity) (n : ℕ) → (identified dir who n).0.id ≡ who.id
unfolding identified
identified-id dir who n =
    let known = known_as-id dir who in
    if_rule (λ (r : Identity × ℕ). r.0.id ≡ who.id) ((known_as dir who).nick == []) (λ _. known)
      (λ _. known)

identified-key :
    (dir : Option (Text → Found)) (who : Identity) (n : ℕ)
    → who.id ≢ []
    → key (identified dir who n).0 ≡ key who
identified-key dir who n named =
    let same = identified-id dir who n in
    (key_iff (identified dir who n).0 who).1 (inl (λ e. named (sym same ∙ e), same))

module _ (dir : Option (Text → Found)) (limits : Option (Identity → Limits)) where
  barred-key :
      (d : Door) (now : ℕ) (who shown : Identity)
      → key shown ≡ key who
      → is_barred d.store now shown ≡ is_barred d.store now who
  unfolding is_barred
  barred-key d now who shown same = ap (λ k. (banned d.store now global k).holds) same

  negotiated-ne_refused :
      (d : Door) (who : Identity) (codec : Option Codec) (status : ℕ) (label : Text)
      → (negotiated dir limits d who codec).1 ≢ refused status label
  negotiated-ne_refused d who none status label e = absurd cc
  negotiated-ne_refused d who (some codec) status label e = absurd cc

  on_upgrade-ne_refused :
      (d : Door) (who : Identity) (up : Upgrade) (status : ℕ) (label : Text)
      → (on_upgrade dir limits d who up).1 ≢ refused status label
  on_upgrade-ne_refused d who rejected status label e = absurd cc
  on_upgrade-ne_refused d who (upgraded sub) status label e =
      negotiated-ne_refused d who (by_name sub) status label e

  greet-barred_iff :
      (d : Door) (now : ℕ) (login : Option Login) (up : Upgrade) (who : Identity) (n : ℕ)
      → ((greet dir limits d now login up (some (who, n))).1 ≡ refused 403 (bytes "banned"))
        ↔ (is_barred d.store now who ≡ true)
  unfolding greet
  greet-barred_iff d now login up who n =
      if_rule
        (λ (r : Door × Outcome).
          (r.1 ≡ refused 403 (bytes "banned")) ↔ (is_barred d.store now who ≡ true))
        (is_barred d.store now who) (λ barred. (λ _. barred, λ _. refl))
        (λ free. (
          λ e. absurd (on_upgrade-ne_refused (record d { anon = n }) who up _ _ e),
          λ barred. absurd (cc),
        ))

  -- Somebody who logs in with an ID, whatever the directory says of them, whatever nick they get and
  -- whatever comes of the upgrade, is refused with 403 exactly when a server-wide ban on their key
  -- is in force: there is one, and it never expires or has not expired yet.
  pub handle_ws-barred_iff :
      (d : Door) (now : ℕ) (who : Identity) (up : Upgrade)
      → who.id ≢ []
      → ((handle_ws dir limits d now (some (someone who)) up).1 ≡ refused 403 (bytes "banned"))
        ↔ InForce d.store.bans now global (key who)
  unfolding handle_ws identify is_barred banned
  handle_ws-barred_iff d now who up named =
      let shown = identified dir who d.anon in
      let same = barred-key d now who shown.0 (identified-key dir who d.anon named) in
      let refusal = greet-barred_iff d now (some (someone who)) up shown.0 shown.1 in
      let in_force = active_iff d.store.bans now global (key who) in
      (
        λ e. elim (in_force.0 (sym same ∙ refusal.0 e)) [ inl h ↦ h | inr h ↦ h ],
        λ h. refusal.1 (same ∙ in_force.1 (inl h)),
      )
