-- ===== src/Security/Turnstile.antt =====
-- core/security/turnstile.py: the bot challenge. The POST to Cloudflare is a parameter.
use eu_rag.Base.{String, Bool, true, false, Option, none, some, if◌then◌else◌}
use eu_rag.Base.Text.{is_empty}

-- What `_post` comes back with: an exception, or a verdict whose `success` is True or is not.
pub data Siteverify : Type 0 where
  unreachable success failure : Siteverify

accepts : Siteverify → Bool
accepts unreachable = true
accepts success = true
accepts failure = false

-- `verify`: a missing token is refused with no call, and an unreachable service lets pass
unfoldable pub verify :
    (String → String → String → Siteverify) → Option String → String → String → Bool
unfolding accepts
verify post none secret remoteip = false
verify post (some token) secret remoteip =
    if is_empty token then false else accepts (post token secret remoteip)
