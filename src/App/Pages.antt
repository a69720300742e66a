-- ===== src/App/Pages.antt =====
-- The pages of src/MinerApp.cpp: `GetRawHtmlContent`, `servePage`, `getStandardDictionary`,
-- `initWebService` and the pages of `initHttp`. The headers of the responses are not modelled.
pub mod Links
use ash_coin.Base.{
  ℕ, ◌+◌, ◌-◌, ◌%◌, ◌^◌, true, false, Bool, Option, none, some, List, [], ◌∷◌, Text, txt, text_eq,
  decimal, leb, ◌==◌, ◌>>=◌, if◌then◌else◌, get_elem?, length, from_chars, invalid, out_of_range,
  scanned,
}
use ash_coin.External.{External}
use ash_coin.Utils.{Dictionary, put_word, do_dictionary}
use ash_coin.Block.{Block}
use ash_coin.Block.Json.{block_to_json}
use ash_coin.Chain.{Chain, size, cum_difficulty}
use ash_coin.Settings.{Settings, value_string, value_u32}
use ash_coin.Settings.Registered.{http_port_default}
use ash_coin.App.{App}
use ash_coin.App.Rest.{Node, Reply, ok, bad_request, reply}

-- What the pages take from the build and from the system of files. `join` is the `/` of Boost's paths,
-- `symlink` what a link points to, and `contents` what a file holds, if it is there.
pub record Site : Type 0 where
  pub build_date : Text
  pub header_html : Text
  pub footer_html : Text
  pub index_html : Text
  pub address_html : Text
  pub block_html : Text
  pub tx_html : Text
  pub createtx_html : Text
  pub style_css : Text
  pub common_js : Text
  pub join : Text → Text → Text
  pub symlink : Text → Option Text
  pub contents : Text → Option Text
  pub replace_all : Text → Text → Text → Text

-- `GetRawHtmlContent`
unfoldable pub get_raw_html_content : Site → (datafolder filename content : Text) → Text
get_raw_html_content w datafolder filename content =
    let named = w.join (w.join datafolder (txt "html")) filename in
    let file : Text = elim (w.symlink named) [ none ↦ named | some target ↦ target ] in
    elim (w.contents file) [ none ↦ content | some text ↦ text ]

-- The words that are the same on every page.
unfoldable pub common_words : Site → Dictionary → Dictionary
unfolding put_word
common_words w d = put_word (txt "%build-version%") (txt "0.1.1") (
    put_word (txt "%build-date%") w.build_date (
      put_word (txt "%app-copyright%") (txt "Copyright (c) 2019-2020, github.com/zethon") (
        put_word (txt "%app-github%") (txt "https://github.com/zethon/ash") (
          put_word (txt "%app-domain%") (txt "AC")
            (put_word (txt "%app-title%") (txt "AshCoin") d)))))

-- `MinerApp::getStandardDictionary`
unfoldable pub get_standard_dictionary : Site → Settings → Dictionary → Dictionary
unfolding common_words value_u32
get_standard_dictionary w s d =
    put_word (txt "%rest-port%") (decimal (value_u32 (txt "rest.port") http_port_default s))
      (common_words w d)

-- The folder of the data, which has to be there.
unfoldable pub data_folder : Settings → Option Text
unfolding value_string
data_folder s =
    let folder = value_string (txt "database.folder") [] s in
    if text_eq folder [] then none else some folder

-- `MinerApp::servePage`, with what is written.
unfoldable pub serve_page : Site → Settings → (filename content : Text) → Dictionary → Option Text
unfolding get_raw_html_content common_words do_dictionary data_folder
serve_page w s filename content dict = do
  folder ← data_folder s
  let words = common_words w dict
  let header =
      do_dictionary w.replace_all (get_raw_html_content w folder (txt "header.html") w.header_html)
        words
  let headed = put_word (txt "%header_html%") header words
  let footer =
      do_dictionary w.replace_all (get_raw_html_content w folder (txt "footer.html") w.footer_html)
        headed
  let footed = put_word (txt "%footer_html%") footer headed
  some (do_dictionary w.replace_all (get_raw_html_content w folder filename content) footed)

-- The ids of the blocks that the page of a block links to, on a chain of a size.
unfoldable pub prev_id : (size block_index : ℕ) → ℕ
prev_id size i = if i == 0 then size - 1 else i - 1

unfoldable pub next_id : (size block_index : ℕ) → ℕ
next_id size i = ((i + 1) % 2 ^ 64) % size

module _ {J : Type 0} (x : External J) (w : Site) (s : Settings) where
  abbrev pub page : (filename content : Text) → Dictionary → Node → Reply
  page filename content dict n = serve_page w s filename content dict >>= λ text. reply (ok text) n

  -- A file that is written as it is.
  abbrev pub plain_file : (filename content : Text) → Node → Reply
  plain_file filename content n =
      data_folder s >>= λ folder. reply (ok (get_raw_html_content w folder filename content)) n

  unfoldable pub page_style : Node → Reply
  unfolding data_folder get_raw_html_content
  page_style n = plain_file (txt "style.css") w.style_css n

  unfoldable pub page_common_js : Node → Reply
  unfolding data_folder get_raw_html_content
  page_common_js n = plain_file (txt "common.js") w.common_js n

  -- At an empty chain the size less one wraps.
  unfoldable pub page_index : (uuid : Text) → Node → Reply
  unfolding serve_page get_standard_dictionary
  page_index uuid n = cum_difficulty n.app.chain >>= λ cumdiff.
      page (txt "index.html") w.index_html
        (put_word (txt "%mining-uuid%") uuid (
          put_word (txt "%mining-status%")
            (if n.app.mining_done then txt "stopped" else txt "started")
            (put_word (txt "%chain-cumdiff%") (decimal cumdiff) (
              put_word (txt "%chain-diff%") (decimal n.app.difficulty) (
                put_word (txt "%chain-size%") (decimal ((size n.app.chain + 2 ^ 64 - 1) % 2 ^ 64))
                  (get_standard_dictionary w s []))))))
        n

  unfoldable pub page_address : (address : Text) → Node → Reply
  unfolding serve_page
  page_address address n =
      page (txt "address.html") w.address_html (put_word (txt "%address%") address []) n

  unfoldable pub page_tx : (tx : Text) → Node → Reply
  unfolding serve_page
  page_tx tx n = page (txt "tx.html") w.tx_html (put_word (txt "%transaction%") tx []) n

  unfoldable pub page_createtx : Node → Reply
  unfolding serve_page
  page_createtx n = page (txt "createtx.html") w.createtx_html [] n

  -- The words of the page of a block.
  unfoldable pub block_words : ℕ → Block → Chain → Dictionary
  unfolding get_standard_dictionary prev_id next_id
  block_words i b c = put_word (txt "%block-nextid%") (decimal (next_id (size c) i)) (
      put_word (txt "%block-previd%") (decimal (prev_id (size c) i)) (
        put_word (txt "%block-valueout%") (txt "TODO: VALUE OUT") (
          put_word (txt "%block-transactions%") (decimal (length b.txs)) (
            put_word (txt "%block-nonce%") (decimal b.nonce) (
              put_word (txt "%block-difficulty%") (decimal b.difficulty) (
                put_word (txt "%block-time%") (txt "TODO: BLOCK TIME") (
                  put_word (txt "%block-root%") (txt "TODO: MERKLE ROOT") (
                    put_word (txt "%block-previoushash%") b.prev (
                      put_word (txt "%block-hash%") b.hash (
                        put_word (txt "%block-id%") (decimal i)
                          (get_standard_dictionary w s [])))))))))))

  unfoldable pub block_page : ℕ → (format : Text) → Node → Reply
  unfolding block_words serve_page
  block_page i format n =
      if leb (size n.app.chain) i
      then reply bad_request n
      else (get_elem? n.app.chain.blocks i >>= λ b.
          if b.index == i
          then (if text_eq format (txt "json")
              then reply (ok (x.json.dump (block_to_json x.json b))) n
              else page (txt "block.html") w.block_html (block_words i b n.app.chain) n)
          else none)

  -- `/block/`, with `json` or nothing as the format: a number that is too large leaves the 0.
  unfoldable pub page_block : (index format : Text) → Node → Reply
  unfolding block_page
  page_block index format n = elim (from_chars index) [
    | invalid ↦ reply bad_request n
    | out_of_range ↦ block_page 0 format n
    | scanned i ↦ block_page i format n
  ]
