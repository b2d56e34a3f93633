-- ===== src/Examples/Addresses.antt =====
-- src/utils/http_url.rs on concrete addresses.
use plain_rs.Common.{
  ◌≡◌, refl, true, [], none, some, Bytes, codes, str_eq, starts_with, split, split_once, join, trim,
  trim_end, skip_space, space_length, arith,
}
use plain_rs.Chat.Messages.{decimal, digits}
use plain_rs.Chat.PeerAuth.{number_of}
use plain_rs.Chat.Transport.{build_url}
use plain_rs.Utils.HttpUrl.{
  parse_http_url, join_url, resolve, collapse_dot_segments, split_host_port, parse_u16, rsplit_once,
  auth_end, scheme_end, eq_ignore_ascii_case, to_ascii_lowercase,
}
use plain_rs.Utils.HttpUrl.Built.{parse_http_url-build_url}

abbrev the_host : Bytes
the_host = codes "nas.lan"

the_url : build_url (codes "https") the_host 8443 (codes "/fs") ≡ codes "https://nas.lan:8443/fs"
unfolding build_url str_eq decimal digits
the_url = refl

lower_host : to_ascii_lowercase the_host ≡ the_host
unfolding to_ascii_lowercase
lower_host = refl

untrimmed :
    trim (build_url (codes "https") the_host 8443 (codes "/fs"))
    ≡ build_url (codes "https") the_host 8443 (codes "/fs")
unfolding trim trim_end skip_space space_length build_url str_eq decimal digits
untrimmed = refl

parse_http_url-build_url_example :
    parse_http_url (build_url (codes "https") the_host 8443 (codes "/fs"))
    ≡ some (record {
      scheme = codes "https";
      host = the_host;
      port = some 8443;
      path = codes "/fs";
      query = [];
    })
parse_http_url-build_url_example =
    parse_http_url-build_url true the_host 8443 (codes "fs") refl lower_host
      (refl, (refl, (refl, (refl, (refl, (refl, (refl, tt)))))))
      (refl, (refl, (refl, (refl, (refl, (refl, (refl, tt)))))))
      (refl, (refl, (refl, (refl, (refl, (refl, (refl, tt))))))) (omega arith) (refl, (refl, tt))
      untrimmed

-- A fragment without a query stays in the path.
fragment_kept :
    parse_http_url (codes "http://h/p#f")
    ≡ some (record {
      scheme = codes "http";
      host = codes "h";
      port = none;
      path = codes "/p#f";
      query = [];
    })
unfolding parse_http_url trim trim_end skip_space space_length scheme_end starts_with
    eq_ignore_ascii_case to_ascii_lowercase str_eq auth_end split_host_port rsplit_once split_once
fragment_kept = refl

joined :
    join_url (codes "http://h:80/a/b.xml?x=1") (codes " ../c/./d?y ")
    ≡ some (codes "http://h/c/d?y")
unfolding join_url resolve collapse_dot_segments parse_http_url trim trim_end skip_space
    space_length scheme_end starts_with eq_ignore_ascii_case to_ascii_lowercase str_eq auth_end
    split_host_port rsplit_once split_once split join parse_u16 number_of decimal digits
joined = refl

-- The brackets around an IPv6 address are lost.
joined_ipv6 : join_url (codes "http://[::1]:8080/x") (codes "/y") ≡ some (codes "http://::1:8080/y")
unfolding join_url resolve collapse_dot_segments parse_http_url trim trim_end skip_space
    space_length scheme_end starts_with eq_ignore_ascii_case to_ascii_lowercase str_eq auth_end
    split_host_port rsplit_once split_once split join parse_u16 number_of decimal digits
joined_ipv6 = refl
