-- ===== src/Openai/Check/Parsed.antt =====
-- `split_http` and `parse_headers` on the header template.
use zk_prompt.Base.{◌≡◌, refl, ap, ◌∙◌, some, List, [], ◌∷◌, ◌++◌, Bytes, append_assoc}
use zk_prompt.Base.Text.{Str, codes, str_eq}
use zk_prompt.Base.Words.{
  to_ascii_lowercase, lowercase, is_whitespace, trim, trim_start, trim_end, keep_front,
  strip_prefix, split_once, flush-some, words_loop, split_whitespace, words_loop-word,
  trim_end-append,
}
use zk_prompt.Base.Outcome.{ok}
use zk_prompt.Openai.Config.{RequestConfig, template}
use zk_prompt.Openai.Wire.{split_http}
use zk_prompt.Openai.Wire.Split.{split_http-joined}
use zk_prompt.Openai.Headers.{
  ParsedHeaders, Found, nothing_found, bearer_token, header_line, lines_loop, request_path,
  parse_headers,
}
use zk_prompt.Openai.Check.Lines.{
  IsTidy, request_line, later_lines, split_crlf-header_text, from_utf8-header_text,
}
use zk_prompt.Openai.Check.Blank.{header_bytes, template-header_bytes, header_bytes-NoBlankLine}

-- What `parse_headers` reads in the template.
abbrev pub parsed_of : RequestConfig → ParsedHeaders
parsed_of c = record {
  host = c.host;
  basepath = c.basepath;
  api_key = c.api_key;
  content_type = codes "application/json";
  connection = codes "close";
}

module _ (c : RequestConfig) (t : IsTidy c) where
  pub split_http-template :
      (body : Bytes) → split_http (template c ++ (codes "\r\n" ++ body)) ≡ ok (header_bytes c, body)
  split_http-template body =
      ap split_http (
        ap (λ (s : Bytes). s ++ (codes "\r\n" ++ body)) (template-header_bytes c)
        ∙ append_assoc (header_bytes c) (codes "\r\n") (codes "\r\n" ++ body))
      ∙ split_http-joined (header_bytes c) body (header_bytes-NoBlankLine c t)

  words : split_whitespace (request_line c) ≡ codes "POST" ∷ c.basepath ∷ codes "HTTP/1.1" ∷ []
  unfolding split_whitespace words_loop is_whitespace
  words =
      ap (λ (ws : List Str). codes "POST" ∷ ws)
        (words_loop-word c.basepath (codes "HTTP/1.1") [] (t.path_word)
          ∙ flush-some c.basepath (codes "HTTP/1.1" ∷ []) (t.path_some))

  request_path-template : request_path (request_line c) ≡ ok c.basepath
  unfolding request_path str_eq
  request_path-template = rw words refl

  token : bearer_token (codes " Bearer " ++ c.api_key) ≡ ok c.api_key
  unfolding bearer_token strip_prefix trim trim_start is_whitespace
  token = rw (trim_end-append (codes "Bearer ") c.api_key (t.key_some) (t.key_trimmed)) refl

  -- What the loop has found behind the last line.
  abbrev found_with : Str → Found
  found_with host = record {
    host = some host;
    api_key = some c.api_key;
    content_type = some (codes "application/json");
    connection = some (codes "close");
  }

  lines_loop-template : lines_loop (later_lines c) nothing_found ≡ ok (found_with c.host)
  unfolding lines_loop split_once header_line lowercase to_ascii_lowercase str_eq trim trim_start
      trim_end keep_front is_whitespace
  lines_loop-template = rw token (ap (λ (h : Str). ok (found_with h)) (t.host_trimmed))

  pub parse_headers-template : parse_headers (header_bytes c) ≡ ok (parsed_of c)
  unfolding parse_headers
  parse_headers-template =
      rw
        (
          from_utf8-header_text c t,
          split_crlf-header_text c t,
          request_path-template,
          lines_loop-template,
        )
        refl
