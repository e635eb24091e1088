-- ===== src/Client/Options.antt =====
-- internal/ghclient/client.go: the options of `New`, and what it makes of them: the transport and the
-- timeout of the HTTP clients.
use merge_bot.Base.{ℕ, suc, List, ◌-◌, ◌+◌, ◌*◌, ltb, if◌then◌else◌, ℤ, pos, negsuc, wrap64, second}
use merge_bot.Client.{fold_items}
use merge_bot.Client.RateLimit.{Transport}

-- The settings of a client: what a request may wait for a rate limit, and how often.
pub record ClientOptions : Type 0 where
  pub max_rate_limit_wait : ℤ
  pub rate_limit_retries : ℤ

abbrev pub default_options : ClientOptions
default_options = record {
  max_rate_limit_wait = pos (15 * 60 * second);
  rate_limit_retries = pos 3;
}

abbrev pub with_rate_limit_wait : ℤ → ClientOptions → ClientOptions
with_rate_limit_wait wait o = record o { max_rate_limit_wait = wait }

abbrev pub with_rate_limit_retries : ℤ → ClientOptions → ClientOptions
with_rate_limit_retries retries o = record o { rate_limit_retries = retries }

-- The transport that `New` puts under both HTTP clients.
unfoldable pub new_transport : List (ClientOptions → ClientOptions) → Transport
unfolding fold_items
new_transport opts = transport_with (fold_items (λ o f. f o) default_options opts)
  where
    transport_with : ClientOptions → Transport
    transport_with o = record { max_wait = o.max_rate_limit_wait; retries = o.rate_limit_retries }

-- The timeout of the HTTP client that `ReviewStatus` uses, on an int64.
unfoldable pub client_timeout : List (ClientOptions → ClientOptions) → ℤ
unfolding fold_items
client_timeout opts =
    a_minute_more (fold_items (λ o f. f o) default_options opts).max_rate_limit_wait
  where
    a_minute : ℕ
    a_minute = 60 * second

    a_minute_more : ℤ → ℤ
    a_minute_more (pos wait) = wrap64 (wait + a_minute)
    a_minute_more (negsuc n) =
        if ltb n a_minute then pos (a_minute - suc n) else negsuc (n - a_minute)
