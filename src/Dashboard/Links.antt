-- ===== src/Dashboard/Links.antt =====
-- The token in the link of a mail is what the page of the link reads.
use Prim.Native.String.{◌++◌ as append}
use rv_tx.Base.{◌≡◌, String, true, Option, none, some}
use rv_tx.Base.Text.{cut, cut_prefix}
use rv_tx.Base.Pieces.{lacks}

-- The parameter `token` of a link whose query has no other.
abbrev pub query_token : Option String → Option String
query_token none = none
query_token (some query) = cut_prefix "token=" query

abbrev pub link_token : String → Option String
link_token link = query_token (cut b'?' link).1

-- A text that stands for itself in a query.
abbrev pub IsPlain : String → Type 0
IsPlain s =
    (lacks b'&' s ≡ true) × (lacks b'#' s ≡ true) × (lacks b'%' s ≡ true) × (lacks b'+' s ≡ true)
