-- ===== src/Redirect/Url.antt =====
-- What the redirects use of `reqwest::Url`, of the parser of `IpAddr` and of a response.
use foia_search_mcp.Prelude.{ℕ, Option, List, Chars, Result}
use foia_search_mcp.Redirect.Ip.{IpAddr}

-- An error of `join` or `parse` is its text.
pub record UrlApi (Url : Type 0) : Type 0 where
  pub parse : Chars → Result Chars Url
  pub join : Url → Chars → Result Chars Url
  pub as_str : Url → Chars
  pub scheme : Url → Chars
  pub username : Url → Chars
  pub password : Url → Option Chars
  pub host_str : Url → Option Chars
  pub parse_ip : Chars → Option IpAddr

-- `HeaderValue::to_str` of the value under each name that the program reads.
pub record Headers : Type 0 where
  pub location : Option Chars
  pub etag : Option Chars
  pub last_modified : Option Chars
  pub content_type : Option Chars
  pub cache_control : Option Chars
  pub json : Result Chars Chars  -- `headers_json` of all of them, as the JSON library has it

-- The body comes in pieces, of which each may fail to come.
pub record Response : Type 0 where
  pub status : ℕ
  pub headers : Headers
  pub content_length : Option ℕ
  pub body : List (Result Chars (List ℕ))

pub record Request (Url : Type 0) : Type 0 where
  pub url : Url
  pub user_agent : Chars
  pub if_none_match : Option Chars
  pub if_modified_since : Option Chars
