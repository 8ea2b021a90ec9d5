-- ===== src/Payloads.antt =====
-- app/schemas/payloads.py: the payloads, and the allowlists that a payload has to meet. Pydantic's
-- parse of the raw document is an argument, `parse`; what is read of a parsed payload is here. The
-- texts that are compared, hosts and domains, are lists of code points, and `lower` is that of ASCII.
pub mod Hosts
use symmetrical_disco.Base.{
  ℕ, ◌+◌, Bool, true, false, ◌&&◌, ◌||◌, Option, none, some, List, [], ◌∷◌, ◌==◌, leb,
  if◌then◌else◌, any,
}
use symmetrical_disco.Models.{JobType, Json}

abbrev pub Text : Type 0
Text = List ℕ

unfoldable pub lower : Text → Text
lower [] = []
lower (c ∷ cs) = (if leb b'A' c && leb c b'Z' then c + 32 else c) ∷ lower cs

abbrev pub same_text : Text → Text → Bool
same_text [] [] = true
same_text (c ∷ cs) (d ∷ ds) = c == d && same_text cs ds
same_text _ _ = false

abbrev pub is_dots : Text → Bool
is_dots [] = true
is_dots (c ∷ cs) = c == b'.' && is_dots cs

-- `rstrip(".")`, `lstrip(".")` and `strip(".")`.
unfoldable pub strip_right : Text → Text
strip_right [] = []
strip_right (c ∷ cs) = if is_dots (c ∷ cs) then [] else c ∷ strip_right cs

unfoldable pub strip_left : Text → Text
strip_left [] = []
strip_left (c ∷ cs) = if c == b'.' then strip_left cs else c ∷ cs

abbrev pub strip : Text → Text
strip t = strip_right (strip_left t)

-- `t.endswith(s)`.
unfoldable pub ends_with : Text → Text → Bool
ends_with s [] = same_text [] s
ends_with s (c ∷ cs) = same_text (c ∷ cs) s || ends_with s cs

unfoldable pub host_matches : Text → Text → Bool
unfolding lower strip_right strip_left ends_with
host_matches host entry =
    let e = strip (lower entry) in same_text host e || ends_with (b'.' ∷ e) host

unfoldable pub host_allowed : Text → List Text → Bool
unfolding host_matches
host_allowed host allowed = any (host_matches (strip_right (lower host))) allowed

-- What `_check_policy` reads of a payload: the host of a webhook's URL, if it has one, and the part
-- of an address behind its last `@`.
pub data Item : Type 0 where
  email_to : Text → Item
  webhook_url : Option Text → Item
  report_params : Item

pub data Payload : Type 0 where
  single : Item → Payload
  items : List Item → Payload

pub record Allowlists : Type 0 where
  pub webhook_allowed_hosts : List Text
  pub email_allowed_domains : List Text

-- `payload.url.host or ""`.
abbrev pub host_or_empty : Option Text → Text
host_or_empty none = []
host_or_empty (some h) = h

-- `true` if the item passes; `false` is the PayloadPolicyError.
unfoldable pub item_allowed : Allowlists → Item → Bool
unfolding host_allowed
item_allowed a (email_to domain) =
    any (λ d. same_text (lower domain) (lower d)) a.email_allowed_domains
item_allowed a (webhook_url host) = host_allowed (host_or_empty host) a.webhook_allowed_hosts
item_allowed a report_params = true

unfoldable pub items_allowed : Allowlists → List Item → Bool
unfolding item_allowed
items_allowed a [] = true
items_allowed a (x ∷ xs) = item_allowed a x && items_allowed a xs

unfoldable pub check_policy : Allowlists → Payload → Bool
unfolding items_allowed
check_policy a (single x) = item_allowed a x
check_policy a (items xs) = items_allowed a xs

pub data Validation : Type 0 where
  valid : Payload → Validation
  malformed_payload : Validation
  not_allowed : Validation

abbrev pub policed : Allowlists → Option Payload → Validation
policed a none = malformed_payload
policed a (some p) = if check_policy a p then valid p else not_allowed

-- With settings, as the API and the worker call it.
unfoldable pub validate_payload :
    Allowlists → (JobType → Json → Option Payload) → JobType → Json → Validation
unfolding check_policy
validate_payload a parse t raw = policed a (parse t raw)
