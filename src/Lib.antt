-- ===== src/Lib.antt =====
-- The core logic of esp8266-toolbox, firmware for the ESP8266: an HTTP server with signed updates over
-- the air, a mail client, a log, an uptime clock and a light sensor.
--
-- The parts and how they interact. The server's callbacks (http/init.c) collect what arrives for a
-- connection and let http/process.c parse it, which calls the page's handler. The OTA handler
-- (http/url_ota.c) writes the uploaded image to the slot of the flash that does not run, hashes it with
-- crypto/sha256.c and checks its signature with crypto/rsa.c and crypto/bigint.c. Two pages
-- (http/url_smtp.c, http/url_wifi.c) change settings. The mail client (smtp/smtp.c) answers the server's
-- challenge with crypto/md5.c and crypto/base64.c, and keeps its account in flash by param.c. Every part
-- reports through log/log.c, by the levels that the pages of http/url_logs.c change; the log's entries carry the time of uptime.c.
--
-- The files:
--   Base, Base/*         shared tests, lists, memory copies and laws of the bit operators
--   Crypto/Base64, /*    crypto/base64.c: decmap, encmap, b64_decode, b64_encode
--   Crypto/Block, /*     the buffering that crypto/sha256.c and crypto/md5.c share (sha256_proc,
--                        sha256_done, md5_proc, md5_done), over any compression function
--   Crypto/Sha256, /*    crypto/sha256.c: the compression function and the order of bytes
--   Crypto/Md5, /*       crypto/md5.c: the same
--   Crypto/Bigint, /*    crypto/bigint.c: numbers of up to 150 bytes. Value, Bits, Shift, Complement, Trim
--                        and Normalize are about the macros and helpers, Hex about bigint_fromhex, Ops
--                        and Ops/* about bigint_cmp, bigint_add, bigint_mul, bigint_div, bigint_expmod
--                        and rsa_pubkey_decrypt of crypto/rsa.c
--   Smtp, Smtp/*         smtp/smtp.c and smtp/private.h: the mail client. Challenge is smtp_send_challenge,
--                        Receive the replies and the order in which they arrive
--   Log, Log/*           log/log.c and log/log.h: levels, time stamps, the buffer of entries
--   Uptime, Uptime/*     uptime.c: uptime_us and uptime_handler
--   Param, Param/*       param.c: param_store and param_retrieve
--   Http/Lexer, /*       http/process.c: parseline and parsetoken
--   Http/Process, /*     http/process.c: http_process (Dispatch: its second half), with HttpClient of
--                        http/private.h; Headers, Fields, Request: requests as a client prints them;
--                        Decimal is about atoi, Ends about the loop over the header lines
--   Http/Clients, /*     http/init.c: the table of clients, new connections and arriving bytes
--   Http/Server, /*      http/init.c: the callbacks of a connection over that table, and the kill task;
--                        Steps: connections that are made, end and send in any order
--   Http/Ota, /*         http/url_ota.c: http_url_ota_push. Verify is the check of the signature; Sector,
--                        Rounds, ReadBack, Finish and Calls are about an upload where the flash works,
--                        Safe, Outcome and Interleaved about any flash and any clients
--   Http/Form, /*        http/utils.c, and the loop over the fields that the two pages below share
--   Http/Setup, /*       http/url_smtp.c and http/url_wifi.c, and HTTP_IGNORE_POSTDATA of http/private.h
--   Http/Logs, /*        http/url_logs.c: the pages that raise and lower the level of a subsystem
--   I2c, I2c/*           i2c/i2c_master.c, and a listener that decodes the two lines
--   Drivers/Tsl2561, /*  drivers/tsl2561.c: the protocol with the sensor, and calc_lux
-- A state of the source is a record with its fields, an operation a function to the new state, an
-- error return a constructor. Unsigned numbers are natural numbers, cut to their width where an
-- expression can leave it. Each `while` loop on fuel is given as many rounds as bytes are left, and
-- each round takes at least one. A pointer into the HTTP server's buffer is the memory from it on: the
-- lines and tokens are found by recursion on that, reads past its end are an outcome of their own, and
-- the loop over the header lines has more fuel than the memory has bytes.
--
-- Parameters of the model: the SDK's flash storage (Param/Storage) and flash (Http/Ota/Flash), what its
-- wifi_station_set_config returns, the readings of its counter of microseconds (Uptime), the handlers
-- of the pages (Http/Process/Dispatch), the level of the data pin as a function of all that happened
-- on the bus (I2c), what the SDK's network calls return (Smtp), and the public key of crypto/rsa.c,
-- which is generated. A Bigint `Holds` a number where its array has 150 bytes, all bits above its
-- width are 0 and the others are the number's. The mail client's loop over the lines of a greeting has
-- a round for each received byte and one more.
-- The OTA handler's loop that writes has two rounds more than bytes are buffered, the one that reads
-- back one more than the application has bytes, the decoding of a value and the loop over the fields of
-- a form as many as the text has characters and one.
--
-- Not modelled: the copy of BearSSL, which is another project's library and is not linked; logging
-- calls inside the other parts; the SDK itself; bigint_print, which only prints; the mail client's
-- callbacks that only log, smtp_send_kill and the loading of its account; http_url_ota_bin and
-- ota_reboot, http/urls.c, http/url_info.c and http/url_reset.c, which are text and calls of the SDK,
-- and the text of the other pages; the list of the log's lines in http/url_logs.c; user_init.c and wifi.c,
-- which configure the SDK.
pub mod Base
pub mod Crypto
pub mod Log
pub mod Uptime
pub mod Param
pub mod I2c
pub mod Drivers
pub mod Http
pub mod Smtp
