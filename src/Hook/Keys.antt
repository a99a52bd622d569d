-- ===== src/Hook/Keys.antt =====
-- What the key of an identity tells apart, and what `Apply` does to it.
use ws_chat.Base.{
  ◌≡◌, ◌≢◌, ◌↔◌, ◌⊎◌, refl, none, some, [], ◌∷◌, ◌++◌, arith, Text, bytes, text_keyed,
  same_text_iff,
}
use ws_chat.Base.Dict.{Dict, lookup, insert, Distinct, lookup-insert}
use ws_chat.Hook.{Identity, Chatter, key, merge_attrs, apply_chatter}

prefix_cancel : (p s t : Text) → p ++ s ≡ p ++ t → s ≡ t
prefix_cancel [] s t e = e
prefix_cancel (c ∷ p) s t e = prefix_cancel p s t (ground arith)

-- Two identities are filed under the same key exactly when they have the same ID, or are both
-- without one and have the same nick.
pub key_iff :
    (i j : Identity)
    → (key i ≡ key j)
      ↔ ((i.id ≢ [] × (i.id ≡ j.id)) ⊎ ((i.id ≡ []) × (j.id ≡ []) × (i.nick ≡ j.nick)))
unfolding key
key_iff i j = (
  ground (
    arith,
    same_text_iff i.id [],
    same_text_iff j.id [],
    prefix_cancel (bytes "id:") i.id j.id,
    prefix_cancel (bytes "nick:") i.nick j.nick,
  ),
  ground (arith, same_text_iff i.id [], same_text_iff j.id []),
)

lookup-merge_attrs :
    (k : Text) (own extra : Dict Text Text)
    → Distinct extra
    → lookup k (merge_attrs own extra)
      ≡ elim (lookup k extra) [ none ↦ lookup k own | some v ↦ some v ]
unfolding merge_attrs lookup
lookup-merge_attrs k own [] d = refl
lookup-merge_attrs k own ((j, v) ∷ extra) d = ground (
  arith,
  lookup-merge_attrs k (insert j v own) extra d.1,
  lookup-insert j k v own,
  same_text_iff j k,
)

-- For a chatter whose attributes have different names: `Apply` keeps the ID and so, if there is one,
-- the key; every attribute is the chatter's if it has one of that name, and else the identity's.
pub key-apply_chatter :
    (i : Identity) (c : Chatter)
    → Distinct c.attrs
    → (i.id ≢ [] → key (apply_chatter i c) ≡ key i)
      × ((k : Text)
          → lookup k (apply_chatter i c).attrs
            ≡ elim (lookup k c.attrs) [ none ↦ lookup k i.attrs | some v ↦ some v ])
unfolding apply_chatter key
key-apply_chatter i c d =
    (λ h. ground (arith, same_text_iff i.id []), λ k. lookup-merge_attrs k i.attrs c.attrs d)
