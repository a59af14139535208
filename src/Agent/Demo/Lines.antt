-- ===== src/Agent/Demo/Lines.antt =====
-- app/agent/demo_mode.go: the lines of the three simulated containers, and what is written of them.
use dkll.Base.{List, [], ◌∷◌, ◌++◌, Bytes, codes}
use dkll.Agent.Demo.{DemoLines}
use dkll.Agent.Demo.Rest.{rest_demo}

abbrev pub nginx_demo : List Bytes
nginx_demo =
    (codes "192.168.1.123 - - [29/May/2019:06:51:42 +0000] \"GET /rt_podcast651.mp3 HTTP/"
      ++ codes "1.1\" 302 70 \"-\" \"AppleCoreMedia/1.0.0.16E227 (iPhone; U; CPU OS 12_2 like Ma"
      ++ codes "c OS X; en_us)")
    ∷ (codes "192.168.1.123 - - [29/May/2019:06:51:43 +0000] \"GET /rt_podcast651.mp3 HTTP/"
        ++ codes "1.1\" 302 70 \"-\" \"AppleCoreMedia/1.0.0.16E227 (iPhone; U; CPU OS 12_2 like Ma"
        ++ codes "c OS X; en_us)")
    ∷ (codes "192.168.1.123 - - [29/May/2019:06:51:50 +0000] \"GET /rt_podcast651.mp3 HTTP/"
        ++ codes "1.1\" 302 70 \"-\" \"CastBox/7.67.2-190518054 (Linux;Android 8.0.0) ExoPlayerLib"
        ++ codes "/2.9.1/7.67.2-190518054 (Linux;Android 8.0.0) xoPlayerLib/2.9.1")
    ∷ (codes "192.168.1.123 - - [29/May/2019:06:51:54 +0000] \"HEAD / HTTP/1.1\" 301 0 \"-\" \""
        ++ codes "updown.io daemon 2.2")
    ∷ (codes "192.168.1.123 - - [29/May/2019:06:51:54 +0000] \"GET /rt_podcast651.mp3 HTTP/"
        ++ codes "1.1\" 302 70 \"-\" \"PodcastAddict/v2 - Dalvik/2.1.0 (Linux; U; Android 9; ONEPL"
        ++ codes "US A5000 Build/PKQ1.180716.001)")
    ∷ (codes "192.168.1.123 - - [29/May/2019:06:52:05 +0000] \"GET /rt_podcast646.mp3 HTTP/"
        ++ codes "1.1\" 302 70 \"-\" \"Mozilla/5.0 (\nLinux; Android 7.0; Redmi Note 4 Build/NRD90M"
        ++ codes "; wv) AppleWebKit/537.36 (KHTML, like Gecko) version/4.0 \"Chrome/73.0.3683.9"
        ++ codes "0 Mobile Safari/537.36 GSA/9.88.7.21.arm64")
    ∷ (codes "192.168.1.123 - - [29/May/2019:06:52:05 +0000] \"GET /rt_podcast651.mp3 HTTP/"
        ++ codes "1.1\" 302 70 \"-\" \"AppleCoreMedia/1.0.0.16E227 (iPhone; U; CPU OS 12_2 like Ma"
        ++ codes "c OS X; ru_ru)")
    ∷ (codes "192.168.1.123 - - [29/May/2019:06:52:05 +0000] \"GET /rt_podcast640.mp3 HTTP/"
        ++ codes "1.1\" 302 70 \"-\" \"AppleCoreMedia/1.0.0.16E227 (iPhone; U; CPU OS 12_2 like Ma"
        ++ codes "c OS X; ru_ru)")
    ∷ (codes "192.168.1.123 - - [29/May/2019:06:52:05 +0000] \"GET /rt_podcast639.mp3 HTTP/"
        ++ codes "1.1\" 302 70 \"-\" \"AppleCoreMedia/1.0.0.16E227 (iPhone; U; CPU OS 12_2 like Ma"
        ++ codes "c OS X; ru_ru)")
    ∷ (codes "192.168.1.123 - - [29/May/2019:06:52:08 +0000] \"GET /podcast-archives.rss HT"
        ++ codes "TP/1.1\" 301 178 \"-\" \"Mozilla/5.0 (compatible; Googlebot/2.1; +http://www.goo"
        ++ codes "gle.com/bot.html)")
    ∷ (codes "192.168.1.123 - - [29/May/2019:06:52:09 +0000] \"GET /rt_podcast651.mp3 HTTP/"
        ++ codes "1.1\" 302 70 \"-\" \"atc/1.0 watchOS/5.2.1 model/Watch4,2 hwp/t8006 build/16U113"
        ++ codes " (6; dt:191)")
    ∷ (codes "192.168.1.123 - - [29/May/2019:06:52:10 +0000] \"GET /rt_podcast650.mp3 HTTP/"
        ++ codes "1.1\" 302 70 \"-\" \"AppleCoreMedia/1.0.0.16G5027i (iPhone; U; CPU OS 12_4 like "
        ++ codes "Mac OS X; en_gb)")
    ∷ (codes "192.168.1.123 - - [29/May/2019:06:52:22 +0000] \"GET /rt_podcast651.mp3 HTTP/"
        ++ codes "1.1\" 302 70 \"-\" \"AppleCoreMedia/1.0.0.16E227 (iPhone; U; CPU OS 12_2 like Ma"
        ++ codes "c OS X; en_us)")
    ∷ (codes "192.168.1.123 - - [29/May/2019:06:52:22 +0000] \"GET /rt644post.mp3 HTTP/1.1\""
        ++ codes " 302 66 \"-\" \"AppleCoreMedia/1.0.0.16F203 (iPhone; U; CPU OS 12_3_1 like Mac "
        ++ codes "OS X; ru_ru)")
    ∷ (codes "192.168.1.123 - - [29/May/2019:06:52:22 +0000] \"GET /rt644post.mp3 HTTP/1.1\""
        ++ codes " 302 66 \"-\" \"AppleCoreMedia/1.0.0.16F203 (iPhone; U; CPU OS 12_3_1 like Mac "
        ++ codes "OS X; ru_ru)")
    ∷ (codes "192.168.1.123 - - [29/May/2019:06:52:24 +0000] \"HEAD / HTTP/1.1\" 301 0 \"-\" \""
        ++ codes "updown.io daemon 2.2")
    ∷ (codes "192.168.1.123 - - [29/May/2019:06:52:24 +0000] \"GET /rt644post.mp3 HTTP/1.1\""
        ++ codes " 302 66 \"-\" \"AppleCoreMedia/1.0.0.16F203 (iPhone; U; CPU OS 12_3_1 like Mac "
        ++ codes "OS X; ru_ru)")
    ∷ (codes "192.168.1.123 - - [29/May/2019:06:52:24 +0000] \"GET /rt644post.mp3 HTTP/1.1\""
        ++ codes " 302 66 \"-\" \"AppleCoreMedia/1.0.0.16F203 (iPhone; U; CPU OS 12_3_1 like Mac "
        ++ codes "OS X; ru_ru)")
    ∷ (codes "192.168.1.123 - - [29/May/2019:06:52:25 +0000] \"GET /rt644post.mp3 HTTP/1.1\""
        ++ codes " 302 66 \"-\" \"AppleCoreMedia/1.0.0.16F203 (iPhone; U; CPU OS 12_3_1 like Mac "
        ++ codes "OS X; ru_ru)")
    ∷ (codes "192.168.1.123 - - [29/May/2019:06:52:27 +0000] \"GET /rt_podcast651.mp3 HTTP/"
        ++ codes "1.1\" 302 70 \"-\" \"PodcastAddict/v2 - Dalvik/2.1.0 (Linux; U; Android 9; CLT-L"
        ++ codes "09 Build/HUAWEICLT-L09)")
    ∷ (codes "192.168.1.123 - - [29/May/2019:06:52:27 +0000] \"HEAD / HTTP/1.1\" 301 0 \"-\" \""
        ++ codes "Monit/5.24.0")
    ∷ (codes "192.168.1.123 - - [29/May/2019:06:52:28 +0000] \"GET /podcast-archives.rss HT"
        ++ codes "TP/1.1\" 301 178 \"-\" \"-")
    ∷ (codes "192.168.1.123 - - [29/May/2019:06:52:32 +0000] \"HEAD /rt_podcast500.mp3 HTTP"
        ++ codes "/1.1\" 302 0 \"-\" \"Monit/5.24.0")
    ∷ (codes "192.168.1.123 - - [29/May/2019:06:52:53 +0000] \"HEAD / HTTP/1.1\" 301 0 \"-\" \""
        ++ codes "updown.io daemon 2.2")
    ∷ (codes "192.168.1.123 - - [29/May/2019:06:52:59 +0000] \"GET /rt_podcast651.mp3 HTTP/"
        ++ codes "1.1\" 302 70 \"-\" \"AppleCoreMedia/1.0.0.16E227 (iPhone; U; CPU OS 12_2 like Ma"
        ++ codes "c OS 192.168.1.123")
    ∷ []

abbrev pub mongo_demo : List Bytes
mongo_demo =
    (codes "2019-05-11T02:04:03.245+0000 I ACCESS   [conn44204] Successfully authenticat"
      ++ codes "ed as principal root on admin")
    ∷ (codes "2019-05-11T02:04:44.584+0000 I NETWORK  [listener] connection accepted from "
        ++ codes "172.18.0.9:54266 #45239 (6 connections now open)")
    ∷ (codes "2019-05-11T02:04:44.585+0000 I NETWORK  [conn45239] end connection 172.18.0."
        ++ codes "9:54266 (5 connections now open)")
    ∷ (codes "2019-05-11T02:05:49.278+0000 I NETWORK  [listener] connection accepted from "
        ++ codes "172.18.0.9:54442 #45240 (6 connections now open)")
    ∷ (codes "2019-05-11T02:05:49.279+0000 I NETWORK  [conn45240] end connection 172.18.0."
        ++ codes "9:54442 (5 connections now open)")
    ∷ (codes "2019-05-11T02:06:53.979+0000 I NETWORK  [listener] connection accepted from "
        ++ codes "172.18.0.9:54688 #45241 (6 connections now open)")
    ∷ (codes "2019-05-11T02:06:53.979+0000 I NETWORK  [conn45241] end connection 172.18.0."
        ++ codes "9:54688 (5 connections now open)")
    ∷ (codes "2019-05-11T02:07:57.165+0000 I ACCESS   [conn44204] Successfully authenticat"
        ++ codes "ed as principal root on admin")
    ∷ (codes "2019-05-11T02:07:58.874+0000 I NETWORK  [listener] connection accepted from "
        ++ codes "172.18.0.9:54874 #45242 (6 connections now open)")
    ∷ (codes "2019-05-11T02:07:58.875+0000 I NETWORK  [conn45242] end connection 172.18.0."
        ++ codes "9:54874 (5 connections now open)")
    ∷ (codes "2019-05-11T02:09:03.369+0000 I NETWORK  [listener] connection accepted from "
        ++ codes "172.18.0.9:55068 #45243 (6 connections now open)")
    ∷ (codes "2019-05-11T02:09:03.370+0000 I NETWORK  [conn45243] end connection 172.18.0."
        ++ codes "9:55068 (5 connections now open)")
    ∷ (codes "2019-05-11T02:09:43.542+0000 I ACCESS   [conn44204] Successfully authenticat"
        ++ codes "ed as principal root on admin")
    ∷ (codes "2019-05-11T02:10:07.873+0000 I NETWORK  [listener] connection accepted from "
        ++ codes "172.18.0.9:55256 #45244 (6 connections now open)")
    ∷ (codes "2019-05-11T02:10:07.874+0000 I NETWORK  [conn45244] end connection 172.18.0."
        ++ codes "9:55256 (5 connections now open)")
    ∷ (codes "2019-05-11T02:11:12.367+0000 I NETWORK  [listener] connection accepted from "
        ++ codes "172.18.0.9:55462 #45245 (6 connections now open)")
    ∷ (codes "2019-05-11T02:11:12.368+0000 I NETWORK  [conn45245] end connection 172.18.0."
        ++ codes "9:55462 (5 connections now open)")
    ∷ (codes "2019-05-11T02:12:17.062+0000 I NETWORK  [listener] connection accepted from "
        ++ codes "172.18.0.9:55952 #45246 (6 connections now open)")
    ∷ (codes "2019-05-11T02:12:17.063+0000 I NETWORK  [conn45246] end connection 172.18.0."
        ++ codes "9:55952 (5 connections now open)")
    ∷ (codes "2019-05-11T02:13:21.755+0000 I NETWORK  [listener] connection accepted from "
        ++ codes "172.18.0.9:56146 #45247 (6 connections now open)")
    ∷ (codes "2019-05-11T02:13:21.756+0000 I NETWORK  [conn45247] end connection 172.18.0."
        ++ codes "9:56146 (5 connections now open)")
    ∷ (codes "2019-05-11T02:14:26.247+0000 I NETWORK  [listener] connection accepted from "
        ++ codes "172.18.0.9:56420 #45248 (6 connections now open)")
    ∷ (codes "2019-05-11T02:14:26.248+0000 I NETWORK  [conn45248] end connection 172.18.0."
        ++ codes "9:56420 (5 connections now open)")
    ∷ (codes "2019-05-11T02:15:30.742+0000 I NETWORK  [listener] connection accepted from "
        ++ codes "172.18.0.9:56790 #45249 (6 connections now open)")
    ∷ (codes "2019-05-11T02:15:30.743+0000 I NETWORK  [conn45249] end connection 172.18.0."
        ++ codes "9:56790 (5 connections now open)")
    ∷ (codes "2019-05-11T02:16:35.436+0000 I NETWORK  [listener] connection accepted from "
        ++ codes "172.18.0.9:57008 #45250 (6 connections now open)")
    ∷ (codes "2019-05-11T02:16:35.437+0000 I NETWORK  [conn45250] end connection 172.18.0."
        ++ codes "9:57008 (5 connections now open)")
    ∷ (codes "2019-05-11T02:17:39.928+0000 I NETWORK  [listener] connection accepted from "
        ++ codes "172.18.0.9:57228 #45251 (6 connections now open)")
    ∷ (codes "2019-05-11T02:17:39.929+0000 I NETWORK  [conn45251] end connection 172.18.0."
        ++ codes "9:57228 (5 connections now open)")
    ∷ (codes "2019-05-11T02:17:57.162+0000 I ACCESS   [conn44204] Successfully authenticat"
        ++ codes "ed as principal root on admin")
    ∷ (codes "2019-05-11T02:18:44.221+0000 I NETWORK  [listener] connection accepted from "
        ++ codes "172.18.0.9:57510 #45252 (6 connections now open)")
    ∷ []

abbrev pub demo_lines : DemoLines
demo_lines = record { nginx = nginx_demo; rest = rest_demo; mongo = mongo_demo }
