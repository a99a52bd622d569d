-- ===== src/Hook.antt =====
-- internal/hook/hook.go: identities, limits and the values that hooks exchange. The hooks
-- themselves are interfaces: whatever implements them is a parameter of what calls them.
pub mod Keys
mod Tests
use ws_chat.Base.{
  ℕ, ◌≡◌, Bool, true, false, not, ◌&&◌, ◌||◌, List, [], ◌∷◌, ◌++◌, arith, ltb, eqb, if◌then◌else◌,
  length, Text, bytes, ◌==◌, text_keyed,
}
use ws_chat.Base.Dict.{Dict, insert}

pub record Identity : Type 0 where
  pub id : Text
  pub nick : Text
  pub roles : List Text
  pub attrs : Dict Text Text

unfoldable pub anonymous : Identity → Bool
anonymous i = i.id == []

unfoldable pub key : Identity → Text
key i = if i.id == [] then bytes "nick:" ++ i.nick else bytes "id:" ++ i.id

-- `slices.Contains`.
pub contains : List Text → Text → Bool
contains [] x = false
contains (y ∷ ys) x = y == x || contains ys x

pub has_role : Identity → Text → Bool
has_role i role = contains i.roles role

pub record Limits : Type 0 where
  pub burst : ℕ
  pub interval : ℕ
  pub key : Text

-- A negative field is 0 here.
pub unlimited : Limits → Bool
unlimited l = ltb l.burst 1 || eqb l.interval 0

pub record Chatter : Type 0 where
  pub nick : Text
  pub roles : List Text
  pub attrs : Dict Text Text

pub record Message : Type 0 where
  pub id : ℕ
  pub from : Identity
  pub body : Text
  pub at : ℕ

pub record Private : Type 0 where
  pub id : ℕ
  pub from : Identity
  pub to : Identity
  pub body : Text
  pub at : ℕ

pub record Sanction : Type 0 where
  pub id : ℕ
  pub action : Text
  pub scope : Text
  pub by_whom : Identity
  pub target : Text
  pub key : Text
  pub reason : Text
  pub until : ℕ
  pub at : ℕ

-- The loop of `Apply` over the chatter's attributes.
pub merge_attrs : Dict Text Text → Dict Text Text → Dict Text Text
merge_attrs own [] = own
merge_attrs own ((k, v) ∷ extra) = merge_attrs (insert k v own) extra

unfoldable pub apply_chatter : Identity → Chatter → Identity
apply_chatter i c = record {
  id = i.id;
  nick = if c.nick == [] then i.nick else c.nick;
  roles = if ltb 0 (length c.roles) then c.roles else i.roles;
  attrs = merge_attrs i.attrs c.attrs;
}
