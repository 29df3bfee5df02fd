-- ===== src/Environ/Tests.antt =====
-- Environments of an agent, and the theorems at them.
use rv_tx.Base.{◌≡◌, refl, some, none, [], ◌∷◌, if◌then◌else◌, ◌==◌}
use rv_tx.Base.Text.{pos, negsuc, split, itoa, cut_prefix, digits_value}
use rv_tx.Base.Atoi.{atoi}
use rv_tx.Base.Trim.{trim_space}
use rv_tx.Environ.{Environ, env_or_list, list_entries, env_or, require_env}

abbrev env : Environ
env key =
    if key == "RVTX_ADVERTISE_SUBNETS"
    then " 192.168.7.0/24 ,, 10.1.0.0/16"
    else (if key == "RVTX_LISTEN_PORT" then "51821" else "")

abbrev joined : Environ
joined key = if key == "RVTX_ADVERTISE_SUBNETS" then "192.168.7.0/24,10.1.0.0/16" else ""

two_subnets : env_or_list env "RVTX_ADVERTISE_SUBNETS" ≡ "192.168.7.0/24" ∷ "10.1.0.0/16" ∷ []
unfolding env_or_list list_entries split trim_space
two_subnets = refl

port_text : env "RVTX_LISTEN_PORT" ≡ itoa (pos 51821)
unfolding itoa
port_text = refl

-- Signs, blanks and values out of range, as strconv.Atoi reads them.
negative : atoi "-7" ≡ some (negsuc 6)
unfolding atoi cut_prefix digits_value
negative = refl

signed : atoi "+7" ≡ some (pos 7)
unfolding atoi cut_prefix digits_value
signed = refl

blank : atoi " 7" ≡ none
unfolding atoi cut_prefix digits_value
blank = refl

too_large : atoi "9223372036854775808" ≡ none
unfolding atoi cut_prefix digits_value
too_large = refl

falls_back : env_or env "RVTX_INTERFACE" "rvtx0" ≡ "rvtx0"
unfolding env_or
falls_back = refl

ends : require_env env "RVTX_NODE_NAME" ≡ none
unfolding require_env
ends = refl
