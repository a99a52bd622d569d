-- ===== src/Config/Checks.antt =====
-- What a configuration that was loaded satisfies.
use ws_chat.Base.{
  ◌<◌, ◌≡◌, ◌≢◌, refl, sym, subst, Bool, true, false, Option, none, some, List, [], ◌∷◌, arith,
  Text, ◌==◌, text_keyed, same_text, same_text_iff, All,
}
use ws_chat.Config.{
  Config, ℤ, pos, negsuc, less_int, bound, first_bad, check, File, missing, unreadable, contents,
  loaded, failed, checked, load, load_text, default_config,
}

-- The limits that the server relies on.
pub record IsUsable (c : Config) : Type 0 where
  pub addr : c.addr ≢ []
  pub capacity : 0 < bound c.capacity
  pub write_batch : 0 < bound c.write_batch
  pub max_frame_size : 0 < bound c.max_frame_size
  pub max_message : 0 < bound c.max_message
  pub backlog : less_int c.backlog 0 ≡ false
  pub default_channel : c.default_channel ≢ []
  pub max_channels : 0 < bound c.max_channels
  pub max_channels_per_conn : 0 < bound c.max_channels_per_conn
  pub priv_buffer : 0 < bound c.priv_buffer
  pub write_timeout : 0 < bound c.write_timeout
  pub idle_timeout : 0 < bound c.idle_timeout

first_bad-none :
    (cases : List (Bool × Text)) → first_bad cases ≡ none → All (λ c. c.0 ≡ false) cases
unfolding first_bad
first_bad-none [] h = tt
first_bad-none ((true, field) ∷ cases) h = absurd (ground arith)
first_bad-none ((false, field) ∷ cases) h = (refl, first_bad-none cases h)

above : (z : ℤ) → less_int z 1 ≡ false → 0 < bound z
above (pos m) h = ground arith
above (negsuc m) h = absurd (ground arith)

named : (t : Text) → (t == []) ≡ false → t ≢ []
named t h e = ground (arith, same_text_iff t [])

check-IsUsable : (c : Config) → check c ≡ none → IsUsable c
unfolding check
check-IsUsable c h =
    let (a, (cap, (wb, (mf, (mm, (bl, (dc, (mc, (mp, (pb, (wt, (it, end)))))))))))) =
      first_bad-none _ h in
    record {
      addr = named c.addr a;
      capacity = above c.capacity cap;
      write_batch = above c.write_batch wb;
      max_frame_size = above c.max_frame_size mf;
      max_message = above c.max_message mm;
      backlog = bl;
      default_channel = named c.default_channel dc;
      max_channels = above c.max_channels mc;
      max_channels_per_conn = above c.max_channels_per_conn mp;
      priv_buffer = above c.priv_buffer pb;
      write_timeout = above c.write_timeout wt;
      idle_timeout = above c.idle_timeout it;
    }

default_checks : check default_config ≡ none
unfolding check first_bad default_config same_text
default_checks = refl

checked-IsUsable :
    (c d : Config) (o : Option Text) → o ≡ check c → checked c o ≡ loaded d → IsUsable d
checked-IsUsable c d none e h =
    let same : c ≡ d = cc in subst IsUsable same (check-IsUsable c (sym e))
checked-IsUsable c d (some field) e h = absurd (ground arith)

module _ (standardize : Text → Option Text) (unmarshal : Text → Config → Option Config) where
  load_text-IsUsable :
      (o : Option Text) (c : Config) → load_text standardize unmarshal o ≡ loaded c → IsUsable c
  unfolding load_text
  load_text-IsUsable none c h = absurd (ground arith)
  load_text-IsUsable (some std) c h = unmarshalled (unmarshal std default_config) h
    where
      unmarshalled :
          (o : Option Config)
          → elim o [ none ↦ failed | some d ↦ checked d (check d) ] ≡ loaded c
          → IsUsable c
      unmarshalled none e = absurd (ground arith)
      unmarshalled (some d) e = checked-IsUsable d c (check d) refl e

  -- Whatever the file holds, and also if there is none: a configuration that `Load` returns has an
  -- address and a default channel, a backlog that is not negative, and a positive capacity, batch,
  -- frame and message size, number of channels (of the server and of a connection), buffer for
  -- private messages, write timeout and idle timeout.
  pub load-IsUsable :
      (file : File) (c : Config) → load standardize unmarshal file ≡ loaded c → IsUsable c
  unfolding load
  load-IsUsable missing c h =
      let same : default_config ≡ c = cc in
      subst IsUsable same (check-IsUsable default_config default_checks)
  load-IsUsable unreadable c h = absurd (ground arith)
  load-IsUsable (contents raw) c h = load_text-IsUsable (standardize raw) c h
