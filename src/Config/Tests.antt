-- ===== src/Config/Tests.antt =====
-- A file that changes nothing.
use ws_chat.Base.{refl, Option, some, Text, bytes, same_text}
use ws_chat.Config.{Config, default_config, check, first_bad, contents, load, load_text}
use ws_chat.Config.Checks.{IsUsable, load-IsUsable}

abbrev same_file : Text → Option Text
same_file t = some t

abbrev unchanged : Text → Config → Option Config
unchanged t c = some c

load-IsUsable_example : IsUsable default_config
unfolding load load_text check first_bad same_text default_config
load-IsUsable_example =
    load-IsUsable same_file unchanged (contents (bytes "{}")) default_config refl
