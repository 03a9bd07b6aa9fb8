-- ===== src/Config/Plain.antt =====
-- An instance of the interface to URLs, on which the tests run: a URL is its scheme and the rest.
use codex_api.Common.{String}
use codex_api.Config.Types.{Urls}

instance abbrev pub plain_urls : Urls
plain_urls = record { Url = String × String; scheme = λ url. url.0 }
