-- ===== src/Tests/Requests.antt =====
-- Requests and responses as text.
use rtsp_server.Prelude.{◌≡◌, refl, arith, [], ◌∷◌, ◌++◌, List, some, length}
use rtsp_server.Prelude.Text.{codes, bytes_eq}
use rtsp_server.Prelude.Numbers.{pos, to_string}
use rtsp_server.Utils.StringUtils.{to_lower}
use rtsp_server.Utils.StringUtils.Trim.{IsTrimmed}
use rtsp_server.Rtsp.Response.{to_string as to_text, describe}
use rtsp_server.Rtsp.Response.Client.{IsValue, read_response}
use rtsp_server.Rtsp.Response.Wire.{kept, describe-wire}
use rtsp_server.Rtsp.Request.{lookup, insert, parse}
use rtsp_server.Rtsp.Request.Lines.{
  HeaderLine, field, other, IsLine, header_line, other_line, line_text, lines_text, store,
}
use rtsp_server.Rtsp.Request.RoundTrip.{print, IsPart, its_length, parse-print}

abbrev written : List HeaderLine
written =
    field [] (codes "CSeq") [] (codes " ") (codes "3") []
    ∷ other b'x' (codes "yz")
    ∷ field [] (codes "CONTENT-length") (codes " ") [] (codes "2") (codes "  ")
    ∷ []

three : IsTrimmed (codes "3")
three = IsTrimmed.one b'3' refl

play : IsPart (codes "PLAY")
play = record {
  no_blank = omega arith;
  no_return = omega arith;
  trimmed = IsTrimmed.more b'P' b'Y' (codes "LA") refl refl refl;
}

url : IsPart (codes "rtsp://h/a")
url = record {
  no_blank = omega arith;
  no_return = omega arith;
  trimmed = IsTrimmed.more b'r' b'a' (codes "tsp://h/") refl refl refl;
}

version : IsPart (codes "RTSP/" ++ codes "1.0")
version = record {
  no_blank = omega arith;
  no_return = omega arith;
  trimmed = IsTrimmed.more b'R' b'0' (codes "TSP/1.") refl refl refl;
}

cseq_line : IsLine (field [] (codes "CSeq") [] (codes " ") (codes "3") [])
cseq_line =
    header_line [] (codes "CSeq") [] (codes " ") (codes "3") [] tt tt (refl, tt) tt
      (IsTrimmed.more b'C' b'q' (codes "Se") refl refl refl) three (omega arith)
      (unfold line_text in omega arith)

length_line : IsLine (field [] (codes "CONTENT-length") (codes " ") [] (codes "2") (codes "  "))
length_line =
    header_line [] (codes "CONTENT-length") (codes " ") [] (codes "2") (codes "  ") tt (refl, tt) tt
      (refl, (refl, tt)) (IsTrimmed.more b'C' b'h' (codes "ONTENT-lengt") refl refl refl)
      (IsTrimmed.one b'2' refl) (omega arith) (unfold line_text in omega arith)

announced :
    lookup (codes "content-length") (store written []) ≡ some (to_string (length (codes "ab")))
unfolding store lookup insert to_lower bytes_eq to_string
announced = refl

parse-print_example :
    parse (
      print (codes "PLAY") (codes "rtsp://h/a") (codes "RTSP/" ++ codes "1.0") written (codes "ab"))
    ≡ some (record {
      method = codes "PLAY";
      url = codes "rtsp://h/a";
      version = codes "RTSP/" ++ codes "1.0";
      headers = store written [];
      body = codes "ab";
    })
parse-print_example =
    parse-print (codes "PLAY") (codes "rtsp://h/a") (codes "1.0") written (codes "ab") play url
      version
      (cseq_line, (other_line b'x' (codes "yz") (omega arith) (omega arith), (length_line, tt)))
      (its_length announced) (unfold print lines_text line_text in omega arith)

date : IsValue (codes "Mon, 01 Jan")
date = record {
  one_line = omega arith;
  trimmed = IsTrimmed.more b'M' b'n' (codes "on, 01 Ja") refl refl refl;
}

base : IsValue (codes "rtsp://h/a/")
base = record {
  one_line = omega arith;
  trimmed = IsTrimmed.more b'r' b'/' (codes "tsp://h/a") refl refl refl;
}

describe-wire_example :
    read_response (
      to_text (describe (codes "Mon, 01 Jan") (pos 3) (codes "v=0") (codes "rtsp://h/a/"))
      ++ codes "RTSP/")
    ≡ some (record {
      status_line = codes "RTSP/1.0 200 OK";
      headers = kept (codes "Mon, 01 Jan") (pos 3) (codes "v=0") (codes "rtsp://h/a/");
      body = codes "v=0";
      rest = codes "RTSP/";
    })
describe-wire_example =
    describe-wire (codes "Mon, 01 Jan") (pos 3) (codes "v=0") (codes "rtsp://h/a/") (codes "RTSP/")
      date base (omega arith)
